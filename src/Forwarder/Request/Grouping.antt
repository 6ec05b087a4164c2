-- ===== src/Forwarder/Request/Grouping.antt =====
-- src/forwarder/otlphttp.rs: `build_slice_request` sends every metric once, under its name.
use ferrometer.Prelude.{
  ℕ, ◌+◌, ◌≡◌, refl, sym, ap, ◌∙◌, List, [], ◌∷◌, ◌++◌, map, append-nil, append_assoc, Option, none,
  some, Bool, true, false, length, length-append, keep, sum_by, if◌then◌else◌, inl, inr, Bool-cases,
  Option-cases, arith, length-map,
}
use ferrometer.Prelude.Text.{Text}
use ferrometer.Prelude.Maps.{Map, Ord, text_ord, is, get, insert, get-insert}
use ferrometer.Prelude.Maps.Sorted.{IsSorted, insert-IsSorted, total, weight, total-insert}
use ferrometer.Signal.{Metric}
use ferrometer.Forwarder.Request.{
  KeyValue, NumberDataPoint, Data, gauge_data, cumulative_monotonic_sum, OtlpMetric, ExportRequest,
  data_point, or_empty, group, group_data, build_slice_request,
}

module _ {F : Type 0} where
  abbrev pub points : Data F → List (NumberDataPoint F)
  points (gauge_data ps) = ps
  points (cumulative_monotonic_sum ps) = ps

  -- The message as a map from names to points.
  abbrev pub by_name : List (OtlpMetric F) → Map Text (List (NumberDataPoint F))
  by_name ms = map (λ m. (m.name, points m.points)) ms

  abbrev pub named : Text → Metric F → Bool
  named n m = is n m.name

  points-group_data : (ms : List (Metric F)) → points (group_data ms) ≡ map data_point ms
  unfolding group_data
  points-group_data [] = refl
  points-group_data (m ∷ ms) = ground arith

  group-IsSorted :
      (ms : List (Metric F)) (acc : Map Text (List (Metric F)))
      → IsSorted acc
      → IsSorted (group ms acc)
  unfolding group
  group-IsSorted [] acc s = s
  group-IsSorted (m ∷ ms) acc s =
      group-IsSorted ms _ (insert-IsSorted m.name (or_empty (get m.name acc) ++ m ∷ []) acc s)

  push-get :
      (n : Text) (m : Metric F) (acc : Map Text (List (Metric F)))
      → or_empty (get n (insert m.name (or_empty (get m.name acc) ++ m ∷ []) acc))
        ≡ or_empty (get n acc) ++ (if named n m then m ∷ [] else [])
  push-get n m acc = ground (
    arith,
    get-insert n m.name (or_empty (get m.name acc) ++ m ∷ []) acc,
    text_ord.cmp_eq n m.name,
    append-nil (or_empty (get n acc)),
  )

  group-get :
      (n : Text) (ms : List (Metric F)) (acc : Map Text (List (Metric F)))
      → or_empty (get n (group ms acc)) ≡ or_empty (get n acc) ++ keep (named n) ms
  unfolding group
  group-get n [] acc = sym (append-nil (or_empty (get n acc)))
  group-get n (m ∷ ms) acc =
      group-get n ms (insert m.name (or_empty (get m.name acc) ++ m ∷ []) acc)
      ∙ ap (λ t. t ++ keep (named n) ms) (push-get n m acc)
      ∙ append_assoc (or_empty (get n acc)) (if named n m then m ∷ [] else []) (keep (named n) ms)
      ∙ ap (λ t. or_empty (get n acc) ++ t) (keep_step (named n m))
    where
      keep_step :
          (b : Bool)
          → (if b then m ∷ [] else []) ++ keep (named n) ms
            ≡ elim b [ true ↦ m ∷ keep (named n) ms | false ↦ keep (named n) ms ]
      keep_step true = refl
      keep_step false = refl

  group-total :
      (ms : List (Metric F)) (acc : Map Text (List (Metric F)))
      → IsSorted acc
      → total length (group ms acc) ≡ total length acc + length ms
  unfolding group
  group-total [] acc s = omega arith
  group-total (m ∷ ms) acc s =
      let old = or_empty (get m.name acc) in
      omega (
        arith,
        group-total ms (insert m.name (old ++ m ∷ []) acc)
            (insert-IsSorted m.name (old ++ m ∷ []) acc s),
        total-insert length m.name (old ++ m ∷ []) acc s,
        length-append old (m ∷ []),
        weight_old (get m.name acc),
      )
    where
      weight_old : (o : Option (List (Metric F))) → weight length o ≡ length (or_empty o)
      weight_old none = refl
      weight_old (some l) = refl

  -- The entries of the map, as the message lists them.
  as_otlp : Text × List (Metric F) → OtlpMetric F
  as_otlp g = record { name = g.0; points = group_data g.1 }

  by_name-Sorted :
      (g : Map Text (List (Metric F))) → IsSorted g → IsSorted (by_name (map as_otlp g))
  unfolding as_otlp
  by_name-Sorted [] s = tt
  by_name-Sorted ((n, ms) ∷ g) s = (keys_below n g s.0, by_name-Sorted g s.1)
    where
      keys_below :
          (n : Text) (g : Map Text (List (Metric F)))
          → ferrometer.Prelude.Maps.Sorted.Below n g
          → ferrometer.Prelude.Maps.Sorted.Below n (by_name (map as_otlp g))
      keys_below n [] b = tt
      keys_below n ((m, ms) ∷ g) b = (b.0, keys_below n g b.1)

  by_name-get :
      (n : Text) (g : Map Text (List (Metric F)))
      → or_empty (get n (by_name (map as_otlp g))) ≡ map data_point (or_empty (get n g))
  unfolding get as_otlp
  by_name-get n [] = refl
  by_name-get n ((m, ms) ∷ g) = ground (arith, by_name-get n g, points-group_data ms)

  by_name-total :
      (g : Map Text (List (Metric F))) → total length (by_name (map as_otlp g)) ≡ total length g
  unfolding as_otlp
  by_name-total [] = refl
  by_name-total ((n, ms) ∷ g) =
      omega (arith, by_name-total g, ap length (points-group_data ms), length-map data_point ms)

  -- Each name stands once in the message, in increasing order; under it stand exactly the points of
  -- the metrics of that name, in their order; and there are as many points as metrics.
  pub record IsGrouped (slice : List (Metric F)) (r : ExportRequest F) : Type 0 where
    pub sorted : IsSorted (by_name r.metrics)
    pub exact :
        (n : Text) → or_empty (get n (by_name r.metrics)) ≡ map data_point (keep (named n) slice)
    pub counted : total length (by_name r.metrics) ≡ length slice

  -- A message groups its batch by name: the names are increasing, the points of a name are those of
  -- its metrics in their order, and no metric is lost or sent twice. The resource is the configured one.
  pub build_slice_request-IsGrouped :
      (slice : List (Metric F)) (attributes : List KeyValue)
      → IsGrouped slice (build_slice_request slice attributes)
        × ((build_slice_request slice attributes).resource ≡ attributes)
  unfolding build_slice_request as_otlp
  build_slice_request-IsGrouped slice attributes =
      let g = group slice [] in
      (
        record {
          sorted = by_name-Sorted g (group-IsSorted slice [] tt);
          exact = λ n. by_name-get n g ∙ ap (map data_point) (group-get n slice [] ∙ nothing n);
          counted = by_name-total g ∙ group-total slice [] tt ∙ omega arith;
        },
        refl,
      )
    where
      nothing : (n : Text) → or_empty (get n []) ++ keep (named n) slice ≡ keep (named n) slice
      nothing n = unfold get in refl
