-- ===== src/Billing/Gst.antt =====
-- src/billing/gst.ts: GST state codes, the GSTIN check digit and the division of tax into heads.
-- Strings are lists of code units; a missing string (`null`, `undefined`) is `none`.
pub mod CheckDigit
pub mod Copying
pub mod Completion
mod Examples
pub mod Tax
use drasken_labs_communicati.Prelude.Int.{ℤ, pos, negsuc}
use drasken_labs_communicati.Prelude.{
  ℕ, zero, suc, ◌+◌, ◌-◌, ◌*◌, ◌/◌, ◌%◌, Text, codes, text_eq, truthy, is_digit, is_upper, is_alnum,
  Bool, true, false, not, ◌&&◌, ◌||◌, Option, none, some, List, [], ◌∷◌, ◌++◌, take, get_elem?,
  ◌==◌, if◌then◌else◌,
}

-- `GST_STATES`, in the order of the file.
abbrev pub gst_states : List (Text × Text)
gst_states =
    (codes "01", codes "Jammu and Kashmir")
    ∷ (codes "02", codes "Himachal Pradesh")
    ∷ (codes "03", codes "Punjab")
    ∷ (codes "04", codes "Chandigarh")
    ∷ (codes "05", codes "Uttarakhand")
    ∷ (codes "06", codes "Haryana")
    ∷ (codes "07", codes "Delhi")
    ∷ (codes "08", codes "Rajasthan")
    ∷ (codes "09", codes "Uttar Pradesh")
    ∷ (codes "10", codes "Bihar")
    ∷ (codes "11", codes "Sikkim")
    ∷ (codes "12", codes "Arunachal Pradesh")
    ∷ (codes "13", codes "Nagaland")
    ∷ (codes "14", codes "Manipur")
    ∷ (codes "15", codes "Mizoram")
    ∷ (codes "16", codes "Tripura")
    ∷ (codes "17", codes "Meghalaya")
    ∷ (codes "18", codes "Assam")
    ∷ (codes "19", codes "West Bengal")
    ∷ (codes "20", codes "Jharkhand")
    ∷ (codes "21", codes "Odisha")
    ∷ (codes "22", codes "Chhattisgarh")
    ∷ (codes "23", codes "Madhya Pradesh")
    ∷ (codes "24", codes "Gujarat")
    ∷ (codes "25", codes "Daman and Diu")
    ∷ (codes "26", codes "Dadra and Nagar Haveli and Daman and Diu")
    ∷ (codes "27", codes "Maharashtra")
    ∷ (codes "28", codes "Andhra Pradesh")
    ∷ (codes "29", codes "Karnataka")
    ∷ (codes "30", codes "Goa")
    ∷ (codes "31", codes "Lakshadweep")
    ∷ (codes "32", codes "Kerala")
    ∷ (codes "33", codes "Tamil Nadu")
    ∷ (codes "34", codes "Puducherry")
    ∷ (codes "35", codes "Andaman and Nicobar Islands")
    ∷ (codes "36", codes "Telangana")
    ∷ (codes "37", codes "Andhra Pradesh")
    ∷ (codes "38", codes "Ladakh")
    ∷ (codes "97", codes "Other Territory")
    ∷ []

-- `GST_STATES[code]`.
unfoldable pub lookup_state : Text → List (Text × Text) → Option Text
lookup_state code [] = none
lookup_state code ((key, name) ∷ rest) =
    if text_eq key code then some name else lookup_state code rest

-- `SUPERSEDED.has(code)`.
is_superseded : Text → Bool
is_superseded code = text_eq code (codes "25") || text_eq code (codes "28")

-- `Object.entries` yields the keys that are array indices first, in ascending order, as they stand
-- in this table, and then the others as they were written. A two-digit key is an array index unless
-- it begins with 0.
is_index_key : Text → Bool
is_index_key [] = false
is_index_key (c ∷ s) = not (c == b'0')

with_index_key : Bool → List (Text × Text) → List (Text × Text)
with_index_key want [] = []
with_index_key want ((code, name) ∷ rest) =
    let others = with_index_key want rest in
    if (if is_index_key code then want else not want) then (code, name) ∷ others else others

entries : List (Text × Text) → List (Text × Text)
entries table = with_index_key true table ++ with_index_key false table

drop_superseded : List (Text × Text) → List (Text × Text)
drop_superseded [] = []
drop_superseded ((code, name) ∷ rest) =
    if not (is_superseded code) then (code, name) ∷ drop_superseded rest else drop_superseded rest

pub selectable_states : List (Text × Text)
unfolding entries with_index_key is_index_key drop_superseded is_superseded text_eq
selectable_states = drop_superseded (entries gst_states)

-- The empty code names no state, as `!code` is true of it.
unfoldable pub state_name : Option Text → Option Text
state_name none = none
state_name (some []) = none
state_name (some (c ∷ s)) = lookup_state (c ∷ s) gst_states

label_of : Option Text → Text → Option Text
label_of none code = none
label_of (some []) code = none
label_of (some (c ∷ s)) code = some ((c ∷ s) ++ (codes " (" ++ (code ++ codes ")")))

pub place_of_supply_label : Option Text → Option Text
place_of_supply_label none = none
place_of_supply_label (some code) = label_of (state_name (some code)) code

-- No name in the table is empty, so `GST_STATES[code]` is true exactly when it is there.
unfoldable pub state_code_of_gstin : Option Text → Option Text
state_code_of_gstin none = none
state_code_of_gstin (some []) = none
state_code_of_gstin (some (c ∷ [])) = none
state_code_of_gstin (some (c ∷ d ∷ rest)) =
    if truthy (lookup_state (c ∷ d ∷ []) gst_states) then some (c ∷ d ∷ []) else none

-- `GSTIN_SHAPE`: a class for each character, and nothing after the last.
abbrev pub gstin_shape : List (ℕ → Bool)
gstin_shape =
    is_digit
    ∷ is_digit
    ∷ is_upper
    ∷ is_upper
    ∷ is_upper
    ∷ is_upper
    ∷ is_upper
    ∷ is_digit
    ∷ is_digit
    ∷ is_digit
    ∷ is_digit
    ∷ is_upper
    ∷ is_alnum
    ∷ (λ c. c == b'Z')
    ∷ is_alnum
    ∷ []

unfoldable pub fits : List (ℕ → Bool) → Text → Bool
fits [] [] = true
fits [] (c ∷ s) = false
fits (p ∷ ps) [] = false
fits (p ∷ ps) (c ∷ s) = p c && fits ps s

abbrev pub alphabet : Text
alphabet = codes "0123456789ABCDEFGHIJKLMNOPQRSTUVWXYZ"

-- `indexOf`, with `none` for -1.
unfoldable pub index_of : ℕ → Text → Option ℕ
index_of c [] = none
index_of c (x ∷ xs) =
    let later = elim (index_of c xs) as (λ _. Option ℕ) [ none ↦ none | some i ↦ some (suc i) ] in
    if x == c then some 0 else later

-- What the character of value `value` at position `i` adds to the sum.
unfoldable pub fold_digit : ℕ → ℕ → ℕ
fold_digit i value =
    let product = value * (if i % 2 == 0 then 1 else 2) in product / 36 + product % 36

-- The loop of `gstinCheckDigit`; `none` is its early return.
unfoldable pub check_sum : ℕ → ℕ → Text → Option ℕ
check_sum i sum [] = some sum
check_sum i sum (c ∷ rest) = elim (index_of c alphabet) [
  | none ↦ none
  | some value ↦ check_sum (i + 1) (sum + fold_digit i value) rest
]

-- `s[i]`, as a string; outside the string it is the empty one, which equals no character.
abbrev pub char_at : Text → ℕ → Text
char_at s i = elim (get_elem? s i) [ none ↦ [] | some c ↦ c ∷ [] ]

unfoldable pub gstin_check_digit : Text → Text
gstin_check_digit first14 = elim (check_sum 0 0 first14) [
  | none ↦ []
  | some sum ↦ char_at alphabet ((36 - sum % 36) % 36)
]

unfoldable pub is_gstin : Option Text → Bool
is_gstin none = false
is_gstin (some value) =
    fits gstin_shape value
    && (truthy (lookup_state (take 2 value) gst_states)
        && text_eq (char_at value 14) (gstin_check_digit (take 14 value)))

pub record TaxSplit : Type 0 where
  pub cgst_amount : ℕ
  pub sgst_amount : ℕ
  pub igst_amount : ℕ
  pub inter_state : Bool

abbrev pub no_tax : TaxSplit
no_tax = record { cgst_amount = 0; sgst_amount = 0; igst_amount = 0; inter_state = false }

-- `!!seller && !!buyer && seller !== buyer`.
pub crosses_state : Option Text → Option Text → Bool
crosses_state (some (c ∷ s)) (some (d ∷ t)) = not (text_eq (c ∷ s) (d ∷ t))
crosses_state _ _ = false

divide : ℕ → Bool → TaxSplit
divide tax true = record { cgst_amount = 0; sgst_amount = 0; igst_amount = tax; inter_state = true }
divide tax false = record {
  cgst_amount = tax / 2;
  sgst_amount = tax - tax / 2;
  igst_amount = 0;
  inter_state = false;
}

pub split_tax : ℤ → Option Text → Option Text → TaxSplit
split_tax (negsuc n) seller buyer = no_tax
split_tax (pos zero) seller buyer = no_tax
split_tax (pos (suc n)) seller buyer = divide (suc n) (crosses_state seller buyer)
