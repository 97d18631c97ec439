-- ===== src/Billing/Access/Keys.antt =====
-- The keys of the access cache: what one names, and what the cache's operations do to another.
use drasken_labs_communicati.Prelude.{
  ℕ, ◌≡◌, refl, sym, ap, ◌∙◌, Text, true, List, [], ◌∷◌, ◌++◌, none, decimal, value_from,
  value_from-decimal, drop, has_no, cut_at, arith,
}
use drasken_labs_communicati.Billing.Access.{scope, access_key, read_key, delete_key}

-- A key names one organisation, one account and one version.
pub scope-injective :
    (o o' w w' : Text) (v v' : ℕ)
    → has_no b':' o ≡ true
    → has_no b':' o' ≡ true
    → has_no b':' w ≡ true
    → has_no b':' w' ≡ true
    → access_key (scope o w v) ≡ access_key (scope o' w' v')
    → (o ≡ o') × (w ≡ w') × (v ≡ v')
unfolding scope
scope-injective o o' w w' v v' p p' q q' e =
    let (same_o, rest) =
      cut_at b':' o o' (w ++ (b':' ∷ b'v' ∷ decimal v)) (w' ++ (b':' ∷ b'v' ∷ decimal v')) p p'
        (ap (drop 4) e) in
    let (same_w, tail) = cut_at b':' w w' (b'v' ∷ decimal v) (b'v' ∷ decimal v') q q' rest in
    (
      same_o,
      same_w,
      sym (value_from-decimal v) ∙ ap (λ t. value_from 0 (drop 1 t)) tail ∙ value_from-decimal v',
    )

-- A key that is not there is not brought back by a deletion,
pub read_key-delete_key :
    (key other : Text) (cache : List (Text × Text))
    → read_key key cache ≡ none
    → read_key key (delete_key other cache) ≡ none
unfolding read_key delete_key
read_key-delete_key key other [] h = refl
read_key-delete_key key other ((k, value) ∷ cache) h =
    ground (arith, read_key-delete_key key other cache)

-- and one that is deleted is gone.
pub read_key-deleted :
    (key : Text) (cache : List (Text × Text)) → read_key key (delete_key key cache) ≡ none
unfolding read_key delete_key
read_key-deleted key [] = refl
read_key-deleted key ((k, value) ∷ cache) = ground (arith, read_key-deleted key cache)
