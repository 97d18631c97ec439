-- ===== src/Billing/Gst/Examples.antt =====
-- Runs of src/billing/gst.ts, and its theorems at concrete inputs.
use drasken_labs_communicati.Prelude.Int.{pos}
use drasken_labs_communicati.Prelude.{
  ℕ, ◌≡◌, refl, Text, codes, true, false, some, [], ◌++◌, length, text_eq, truthy, get_elem?, take,
}
use drasken_labs_communicati.Billing.Gst.{
  selectable_states, place_of_supply_label, state_code_of_gstin, is_gstin, gstin_check_digit,
  split_tax, fits, lookup_state, gst_states, check_sum, index_of, fold_digit, label_of, state_name,
}
use drasken_labs_communicati.Billing.Gst.Copying.{is_gstin-substitute, is_gstin-transpose}
use drasken_labs_communicati.Billing.Gst.Completion.{gstin_check_digit-is_gstin}
use drasken_labs_communicati.Billing.Gst.Tax.{IsDivision, split_tax-IsDivision}

abbrev registration : Text
registration = codes "27AAPFU0939F1ZV"

accepted : is_gstin (some registration) ≡ true
unfolding is_gstin fits lookup_state text_eq gstin_check_digit check_sum index_of fold_digit
accepted = refl

mistyped : is_gstin (some (codes "27AAPFU0993F1ZV")) ≡ false
unfolding is_gstin fits lookup_state text_eq gstin_check_digit check_sum index_of fold_digit
mistyped = refl

-- A form lists Bihar first and Himachal Pradesh among the last: not the order of the codes.
first_state : get_elem? selectable_states 0 ≡ some (codes "10", codes "Bihar")
unfolding selectable_states
first_state = refl

labels : place_of_supply_label (some (codes "29")) ≡ some (codes "Karnataka (29)")
unfolding place_of_supply_label label_of state_name lookup_state text_eq
labels = refl

old_registration : state_code_of_gstin (some (codes "28AAPFU0939F1ZV")) ≡ some (codes "28")
unfolding state_code_of_gstin lookup_state text_eq
old_registration = refl

is_gstin-substitute_example : ◌≡◌ {A = ℕ} b'2' b'2'
is_gstin-substitute_example =
    is_gstin-substitute [] b'2' b'2' (codes "7AAPFU0939F1ZV") accepted accepted

is_gstin-transpose_example : ◌≡◌ {A = ℕ} b'A' b'A'
is_gstin-transpose_example =
    is_gstin-transpose (codes "27") b'A' b'A' (codes "PFU0939F1ZV") accepted accepted

known_state : truthy (lookup_state (take 2 (codes "27AAPFU0939F1Z")) gst_states) ≡ true
unfolding lookup_state text_eq
known_state = refl

gstin_check_digit-is_gstin_example :
    (length (gstin_check_digit (codes "27AAPFU0939F1Z")) ≡ 1)
    × (is_gstin (some (codes "27AAPFU0939F1Z" ++ gstin_check_digit (codes "27AAPFU0939F1Z")))
        ≡ true)
unfolding fits
gstin_check_digit-is_gstin_example =
    gstin_check_digit-is_gstin (codes "27AAPFU0939F1Z") refl known_state

split_tax-IsDivision_example :
    IsDivision 101
      (some (codes "29"))
      (some (codes "29"))
      (split_tax (pos 101) (some (codes "29")) (some (codes "29")))
split_tax-IsDivision_example =
    split_tax-IsDivision (pos 101) (some (codes "29")) (some (codes "29"))
