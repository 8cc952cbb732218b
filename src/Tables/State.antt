-- ===== src/Tables/State.antt =====
-- Table `state` is a map.
use suzie_filtering_system.Base.{
  Text, some, List, [], ◌∷◌, ◌≡◌, refl, text_eq, text_eq_iff, arith, if◌then◌else◌,
}
use suzie_filtering_system.Tables.{Value, select_state, upsert_state}

-- An upsert of one key sets its value and keeps the values of all others.
pub select_state-upsert_state :
    (k j : Text) (v : Value) (s : List (Text × Value))
    → select_state j (upsert_state k v s) ≡ (if text_eq k j then some v else select_state j s)
unfolding select_state upsert_state
select_state-upsert_state k j v [] = refl
select_state-upsert_state k j v ((i, w) ∷ s) =
    ground
      (arith, select_state-upsert_state k j v s, text_eq_iff i k, text_eq_iff i j, text_eq_iff k j)
