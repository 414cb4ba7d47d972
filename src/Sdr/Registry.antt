-- ===== src/Sdr/Registry.antt =====
-- The lists and maps that `parse_sdrs` (sdr.py) fills, and the objects that they name.
use mathlib.Core.Path.{subst}
use idic.Prelude.{
  ℕ, ◌+◌, ◌<◌, ◌≡◌, sym, Bool, true, false, Option, some, List, [], ◌∷◌, ◌++◌, arith, ap, ◌∙◌,
  if◌then◌else◌, length, get_elem?, length-snoc, get_elem?-append_left, get_elem?-append_length,
  lt-length_of_get_elem?,
}
use native.Mathlib.Decide.{dec_lt}
use idic.Text.{Text}
use idic.Model.{World, new_sensor, Value}
use idic.Model.Outcomes.{Preserves}
use idic.Sdr.{put_id, find_id, same_key, build_sensors}

-- The maps and lists name one object for each entry, in the order in which they were built.
pub record IsRegistered (w : World) : Type 0 where
  pub objects : length w.sensor_list ≡ length w.heap
  pub names : length w.sensor_name_list ≡ length w.sensor_list
  pub ids : length w.sensor_id_list ≡ length w.sensor_list
  pub listed : (i a : ℕ) → get_elem? w.sensor_list i ≡ some a → a ≡ i
  pub mapped : (k : ℕ × ℕ) (a : ℕ) → find_id k w.sensor_id_map ≡ some a → a < length w.heap

-- A key finds what was put last under it, and any other key what it found before.
pub find_id-put_id :
    (k j : ℕ × ℕ) (a : ℕ) (d : List ((ℕ × ℕ) × ℕ))
    → find_id k (put_id j a d) ≡ (if same_key j k then some a else find_id k d)
unfolding find_id put_id same_key
find_id-put_id (k, m) (j, n) a [] = ground arith
find_id-put_id (k, m) (j, n) a (((i, l), b) ∷ d) = ground (arith, find_id-put_id (k, m) (j, n) a d)

-- A longer list of addresses in order.
listed-snoc :
    (xs : List ℕ) (i a : ℕ)
    → ((j b : ℕ) → get_elem? xs j ≡ some b → b ≡ j)
    → get_elem? (xs ++ length xs ∷ []) i ≡ some a
    → a ≡ i
listed-snoc xs i a h e =
    let inside : i < length xs + 1 =
      omega
        (arith, lt-length_of_get_elem? (xs ++ length xs ∷ []) i e, length-snoc xs (length xs)) in
    elim (dec_lt i (length xs)) [
      | yes lt ↦ h i a (sym (get_elem?-append_left xs (length xs ∷ []) i lt) ∙ e)
      | no at_end ↦
          let same : i ≡ length xs = omega arith in
          let last : some (length xs) ≡ some a =
            sym (get_elem?-append_length xs [] (length xs))
            ∙ ap (get_elem? (xs ++ length xs ∷ [])) (sym same)
            ∙ e in
          cc
    ]

bound_of_new :
    (b : Bool) (n a : ℕ) (o : Option ℕ)
    → (o ≡ some a → a < n)
    → (if b then some n else o) ≡ some a
    → a < n + 1
bound_of_new true n a o h e = ground arith
bound_of_new false n a o h e = omega (arith, h e)

pub build_sensors-IsRegistered :
    (name : Text) (ID mc : ℕ) (value : Value) (tp : ℕ)
    → Preserves IsRegistered (build_sensors name ID mc value tp)
unfolding build_sensors
build_sensors-IsRegistered name ID mc value tp = record {
  at = λ w r. record {
    objects = grind (arith, length-snoc, r.objects);
    names = grind (arith, length-snoc, r.names);
    ids = grind (arith, length-snoc, r.ids);
    listed = λ i a e.
        listed-snoc w.sensor_list i a r.listed
          (subst (λ n. get_elem? (w.sensor_list ++ n ∷ []) i ≡ some a) (sym r.objects) e);
    mapped = λ k a e.
        let n = length w.heap in
        omega (
          arith,
          length-snoc w.heap (new_sensor name ID value tp),
          bound_of_new (same_key (ID, mc) k) n a (find_id k w.sensor_id_map) (r.mapped k a)
              (sym (find_id-put_id k (ID, mc) n w.sensor_id_map) ∙ e),
        );
  };
}
