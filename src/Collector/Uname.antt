-- ===== src/Collector/Uname.antt =====
-- src/collector/unix/uname.rs: what `uname` answers, as the labels of one gauge.
use ferrometer.Prelude.{ℕ, []}
use ferrometer.Prelude.Text.{Text, codes}
use ferrometer.Prelude.Maps.{text_ord, insert}
use ferrometer.Error.{collector, Foreign, map_err}
use ferrometer.Signal.{Labels}
use ferrometer.Collector.Emit.{Floats, Emit, Collect, push_gauge, collected, after_colon}

-- The fields behind `to_string_lossy`.
pub record UtsName : Type 0 where
  pub sysname : Text
  pub release : Text
  pub version : Text
  pub machine : Text
  pub nodename : Text

unfoldable pub uname_labels : UtsName → Labels
unfolding insert codes
uname_labels info = insert (codes "nodename") info.nodename (
    insert (codes "machine") info.machine (
      insert (codes "version") info.version
        (insert (codes "release") info.release (insert (codes "sysname") info.sysname []))))

unfoldable pub metrics : {F : Type 0} → Floats F → ℕ → UtsName → Emit F
unfolding uname_labels codes
metrics f now info = push_gauge now (codes "node_uname_info") (f.of 1) (uname_labels info)

unfoldable pub collect : {F : Type 0} → Floats F → ℕ → Foreign UtsName → Collect F
unfolding metrics codes
collect f now read =
    collected (map_err (λ e. collector (after_colon (codes "uname") e)) read) (metrics f now)
