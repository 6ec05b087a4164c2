-- ===== src/Config/Placeholders/Tests.antt =====
-- src/config.rs: an expansion, and an instance of the theorem.
use ferrometer.Prelude.{◌≡◌, refl, none, some, if◌then◌else◌}
use ferrometer.Prelude.Text.{codes, text_eq}
use ferrometer.Error.{ok}
use ferrometer.Config.Placeholders.{Environment, expand_placeholders}
use ferrometer.Config.Placeholders.Templates.{
  Template, render, IsProper, fill, expand_placeholders-fill,
}

abbrev home_only : Environment
home_only = record {
  var = λ name. if text_eq name (codes "HOME") then some (codes "/root") else none;
  version = codes "1.2";
}

expands :
    expand_placeholders home_only (codes "pi") (codes "${env:HOME}/${instance.name}-$1{}")
    ≡ ok (codes "/root/pi-$1{}")
unfolding codes text_eq expand_placeholders
expands = refl

expand_placeholders-fill_example :
    (t : Template) × IsProper t
    × (render t ≡ codes "a${version}")
    × (expand_placeholders home_only (codes "pi") (codes "a${version}")
        ≡ fill home_only (codes "pi") (codes "a${version}") t)
expand_placeholders-fill_example =
    expand_placeholders-fill home_only (codes "pi") (codes "a${version}")
