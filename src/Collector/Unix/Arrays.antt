-- ===== src/Collector/Unix/Arrays.antt =====
-- src/collector/unix/cpu.rs, md.rs and hwmon.rs: these parts, too, emit what the host and the base
-- labels say, whatever the cache holds.
use ferrometer.Prelude.{ℕ, refl, ◌+◌, List, [], ◌∷◌, Option, Bool, true, false}
use ferrometer.Prelude.Text.{Text, codes}
use ferrometer.Prelude.Maps.{Map, text_ord, insert}
use ferrometer.Prelude.Maps.Sorted.{IsSorted}
use ferrometer.Error.{Foreign}
use ferrometer.Signal.{Labels}
use ferrometer.Collector.Emit.{Floats, each, if_some}
use ferrometer.Collector.Emit.Refines.{
  Emits, emits, Emits-nothing, Emits-append, Emits-nil, Emits-cons, Emits-each, Emits-if_some,
  Emits-if, Emits-push_gauge, Emits-push_counter, Collects, Collects-collected,
}
use ferrometer.Collector.Files.{Directory, read_u64}
use ferrometer.Collector.Hwmon.{SensorType, BlockDevice, block_devices_by_path}
use ferrometer.Collector.Md.{md_states}
use ferrometer.Collector.Cpu
use ferrometer.Collector.Md.Series
use ferrometer.Collector.Hwmon.Chip

module _ {F : Type 0} (f : Floats F) (now : ℕ) (base : Labels) (sorted : IsSorted base) where
  module _ (tps : F) (sys : Directory) where
    new_package-Emits :
        (i : ℕ) (seen : List Text) (pkg : Text) → Emits base (Cpu.if_new f tps now sys i seen pkg)
    unfolding Cpu.if_new Cpu.package_throttles
    new_package-Emits i seen pkg = Emits-if base (Cpu.is_seen pkg seen) _ _ (Emits-nothing base) (
        Emits-if_some base (Cpu.package_throttles f tps now sys pkg)
          (λ count. Emits-push_counter base sorted now _ _ _) (Cpu.package_count sys i))

    of_cpu-Emits :
        (i : ℕ) (cpu : Cpu.CpuTime) (seen : List Text)
        → Emits base (Cpu.of_cpu f tps now sys i cpu seen)
    unfolding Cpu.of_cpu Cpu.mode_time Cpu.frequency Cpu.in_hertz Cpu.governor Cpu.core_throttles
    of_cpu-Emits i cpu seen =
        Emits-cons base _
          (Emits-each base (Cpu.mode_time f tps now sys i)
            (λ (mode, value). Emits-push_counter base sorted now _ _ _)
            (Cpu.modes f tps now sys cpu))
          (Emits-cons base _
            (Emits-each base (Cpu.frequency f tps now sys i)
              (λ (file, name).
                Emits-if_some base (Cpu.in_hertz f tps now sys i name)
                  (λ khz. Emits-push_gauge base sorted now _ _ _)
                  (read_u64 sys (Cpu.cpu_file i file)))
              Cpu.freq_fields)
            (Emits-cons base _
              (Emits-if_some base (Cpu.governor f tps now sys i)
                (λ name. Emits-push_gauge base sorted now _ _ _) _)
              (Emits-cons base _
                (Emits-if_some base (Cpu.core_throttles f tps now sys i)
                  (λ count. Emits-push_counter base sorted now _ _ _) _)
                (Emits-cons base _
                  (Emits-if_some base (Cpu.if_new f tps now sys i seen) (new_package-Emits i seen)
                    _)
                  (Emits-nil base)))))

    cpus-Emits :
        (i : ℕ) (seen : List Text) (stats : List Cpu.CpuTime)
        → Emits base (Cpu.cpus f tps now sys i seen stats)
    unfolding Cpu.cpus
    cpus-Emits i seen [] = emits [] tt (λ c h. (refl, h))
    cpus-Emits i seen (cpu ∷ stats) =
        Emits-append base (Cpu.of_cpu f tps now sys i cpu seen)
          (Cpu.cpus f tps now sys (i + 1) (Cpu.saw (Cpu.package_of sys i) seen) stats)
          (of_cpu-Emits i cpu seen) (cpus-Emits (i + 1) (Cpu.saw (Cpu.package_of sys i) seen) stats)

    pub cpu-Collects :
        (read : Foreign (List Cpu.CpuTime)) → Collects base (Cpu.collect f tps now sys read)
    unfolding Cpu.collect
    cpu-Collects read = Collects-collected base _ (Cpu.cpus f tps now sys 0 []) (cpus-Emits 0 [])

  member-Emits : (device : Text) (m : Text × Directory) → Emits base (Series.member f now device m)
  unfolding Series.member
  member-Emits device (disk, dir) =
      let labels = Series.disk_labels device disk in
      Emits-cons base _
        (Emits-if_some base (Series.flag_gauges f now labels)
          (λ state.
            Emits-each base (Series.flag_gauge f now labels)
              (λ flag. Emits-push_gauge base sorted now _ _ _) (Series.flags_of state))
          _)
        (Emits-cons base _
          (Emits-if_some base (Series.error_counter f now labels)
            (λ n. Emits-push_counter base sorted now _ _ _) _)
          (Emits-cons base _
            (Emits-if_some base (Series.size_gauge f now labels)
              (λ n. Emits-push_gauge base sorted now _ _ _) _)
            (Emits-cons base _
              (Emits-if_some base (Series.slot_gauge f now labels)
                (λ raw. Emits-push_gauge base sorted now _ _ _) _)
              (Emits-cons base _
                (Emits-each base (Series.range_gauges f now dir labels)
                  (λ (attr, name).
                    Emits-if_some base (Series.range_gauge f now name labels)
                      (λ content. Emits-push_gauge base sorted now _ _ _) _)
                  Series.range_attrs)
                (Emits-nil base)))))

  numbered-Emits :
      (name : Text) (labels : Labels) (o : Option ℕ)
      → Emits base (if_some (Series.numbered f now name labels) o)
  numbered-Emits name labels o =
      Emits-if_some base (Series.numbered f now name labels)
        (λ n. Emits-push_gauge base sorted now _ _ _) o

  collect_array-Emits :
      (array : Text × (Series.Block × Series.MdDir)) → Emits base (Series.collect_array f now array)
  unfolding Series.collect_array Series.state_series Series.state_gauge Series.disk_series
  collect_array-Emits (device, (block, md)) =
      let labels = Series.labels_of device in
      Emits-cons base _ (Emits-push_gauge base sorted now _ _ _) (
        Emits-cons base _
          (Emits-each base (Series.attr_gauge f now md.files labels)
            (λ (attr, name). numbered-Emits name labels _) Series.number_attrs)
          (Emits-cons base _ (numbered-Emits _ labels _) (
            Emits-cons base _ (numbered-Emits _ labels _) (
              Emits-cons base _
                (Emits-if_some base (Series.speed_gauge f now labels)
                  (λ raw. Emits-push_gauge base sorted now _ _ _) _)
                (Emits-cons base _
                  (Emits-if_some base (Series.each_state f now labels)
                    (λ current.
                      Emits-each base (Series.state_gauge f now labels current)
                        (λ state. Emits-push_gauge base sorted now _ _ _) md_states)
                    _)
                  (Emits-cons base _
                    (Emits-if_some base (Series.action_gauge f now labels)
                      (λ action. Emits-push_gauge base sorted now _ _ _) _)
                    (Emits-cons base _
                      (Emits-each base (Series.member f now device) (member-Emits device) _)
                      (Emits-cons base _
                        (Emits-each base (Series.bucket_gauge f now labels)
                          (λ (state, count). Emits-push_gauge base sorted now _ _ _) _)
                        (Emits-nil base)))))))))

  pub md-Collects :
      (has_mdstat : Bool) (entries : Option (List (Text × Series.Block)))
      → Collects base (Series.collect f now has_mdstat entries)
  unfolding Series.collect
  md-Collects has_mdstat entries =
      Collects-collected base _ (each (Series.collect_array f now))
        (Emits-each base (Series.collect_array f now) collect_array-Emits)

  push-Emits :
      (b : Bool) (name : Text) (value : F) (labels : Labels)
      → Emits base (Chip.push f now b name value labels)
  push-Emits true name value labels = Emits-push_counter base sorted now name value labels
  push-Emits false name value labels = Emits-push_gauge base sorted now name value labels

  reading-Emits :
      (t : SensorType) (property : Text) (scaled : Bool) (labels : Labels) (raw : F)
      → Emits base (Chip.reading f now t property scaled labels raw)
  unfolding Chip.reading
  reading-Emits t property scaled labels raw =
      Emits-if base _ _ _ (Emits-nothing base) (push-Emits _ _ _ labels)

  sensor_file-Emits :
      (files : Directory) (labels : Labels) (file sensor property : Text) (t : SensorType)
      → Emits base (Chip.sensor_file f now files labels file sensor property t)
  unfolding Chip.sensor_file
  sensor_file-Emits files labels file sensor property t =
      let labels' = insert (codes "sensor") sensor labels in
      Emits-if base _ _ _
        (Emits-if_some base (Chip.label_gauge f now labels')
          (λ label. Emits-push_gauge base sorted now _ _ _) _)
        (Emits-if_some base (Chip.property_file f now files labels' file property t)
          (λ (name, scaled).
            Emits-if_some base (Chip.reading f now t property scaled labels')
              (reading-Emits t property scaled labels') _)
          _)

  attribute-Emits :
      (files : Directory) (labels : Labels) (file : Text)
      → Emits base (Chip.attribute f now files labels file)
  unfolding Chip.attribute
  attribute-Emits files labels file =
      Emits-if_some base (Chip.typed_file f now files labels file)
        (λ (sensor, property).
          Emits-if_some base (Chip.sensor_file f now files labels file sensor property)
            (sensor_file-Emits files labels file sensor property) _)
        _

  collect_chip-Emits :
      (disks : Map Text Text) (filter : Text → Bool) (e : Text × Chip.ChipDir)
      → Emits base (Chip.collect_chip f now disks filter e)
  unfolding Chip.collect_chip
  collect_chip-Emits disks filter (path, d) = Emits-if base _ _ _ (Emits-nothing base) (
      Emits-cons base _
        (Emits-if_some base (Chip.name_gauge f now _)
          (λ name. Emits-push_gauge base sorted now _ _ _) _)
        (Emits-cons base _
          (Emits-each base (Chip.attribute f now d.files _) (attribute-Emits d.files _) _)
          (Emits-nil base)))

  pub hwmon-Collects :
      (chips : Option (Map Text Chip.ChipDir)) (blocks : Option (List BlockDevice))
      (filter : Text → Bool)
      → Collects base (Chip.collect f now chips blocks filter)
  unfolding Chip.collect
  hwmon-Collects chips blocks filter =
      Collects-collected base _
        (each (Chip.collect_chip f now (block_devices_by_path (Chip.or_empty blocks)) filter))
        (Emits-each base
          (Chip.collect_chip f now (block_devices_by_path (Chip.or_empty blocks)) filter)
          (collect_chip-Emits (block_devices_by_path (Chip.or_empty blocks)) filter))
