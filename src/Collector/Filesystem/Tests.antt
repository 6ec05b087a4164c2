-- ===== src/Collector/Filesystem/Tests.antt =====
-- src/collector/unix/filesystem.rs: a choice among mounts, and an instance of the theorem.
use ferrometer.Prelude.{◌≡◌, refl, List, [], ◌∷◌, none, some, true, map}
use ferrometer.Prelude.Text.{Text, codes, cmp_text}
use ferrometer.Prelude.Maps.{text_ord, get}
use ferrometer.Collector.Filesystem.{MountInfo, dedupe, path_lt}
use ferrometer.Collector.Filesystem.Reported.{IsChosen, of_device, dedupe-IsChosen}

abbrev at : Text → Text → MountInfo
at root mount_point = record {
  majmin = codes "8:1";
  root = root;
  mount_point = mount_point;
  mount_source = none;
  fs_type = codes "ext4";
}

abbrev three : List MountInfo
three =
    at (codes "/sub") (codes "/a")
    ∷ at (codes "/") (codes "/m-2")
    ∷ at (codes "/") (codes "/m/1")
    ∷ []

-- By components, not by characters.
by_component : path_lt (codes "/m/1") (codes "/m-2") ≡ true
unfolding codes cmp_text path_lt
by_component = refl

picks_root : get (codes "8:1") (dedupe three []) ≡ some (at (codes "/") (codes "/m/1"))
unfolding codes cmp_text get dedupe
picks_root = refl

dedupe-IsChosen_example :
    IsChosen (codes "8:1") three (of_device (codes "8:1") (map (λ e. e.1) (dedupe three [])))
dedupe-IsChosen_example = dedupe-IsChosen three (codes "8:1")
