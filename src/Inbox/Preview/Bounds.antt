-- ===== src/Inbox/Preview/Bounds.antt =====
-- Inbox/Preview: how long a preview is.
use drasken_labs_communicati.Prelude.{
  ℕ, zero, suc, ◌≤◌, Text, false, List, [], ◌∷◌, ◌++◌, Option, none, some, codes, text_eq, length,
  take, length-append, ltb, arith, Bool-cases, inl, inr, if◌then◌else◌, All, subst, sym,
}
use drasken_labs_communicati.Prelude.Trim.{trim}
use drasken_labs_communicati.Inbox.Preview.{
  clamp, shortened, collapse, summary_or, inbound_summary, outbound_summary, quoted_or, words,
  other, Value, InboundPayload, OutboundPayload, inbound_preview, outbound_preview,
  template_preview, value_or, name_or,
}

length-take : (n : ℕ) (s : Text) → length (take n s) ≤ n
length-take zero s = omega arith
length-take (suc n) [] = omega arith
length-take (suc n) (c ∷ s) = omega (arith, length-take n s)

length-shortened : (s : Text) → length (shortened s) ≤ 120
length-shortened s = elim (Bool-cases (ltb 120 (length s))) [
  | inl long ↦
      let cut = length-append (take 119 s) (8230 ∷ []) in
      subst (λ b. length (if b then take 119 s ++ 8230 ∷ [] else s) ≤ 120) (sym long)
        (omega (arith, length-take 119 s, cut))
  | inr short ↦
      subst (λ b. length (if b then take 119 s ++ 8230 ∷ [] else s) ≤ 120) (sym short)
        (ground arith)
]

length-clamp : (s : Text) → length (clamp s) ≤ 120
unfolding clamp
length-clamp s = length-shortened (trim (collapse false s))

length-summary_or :
    (otherwise kind : Text) (entries : List (Text × Text))
    → length otherwise ≤ 120
    → All (λ entry. length entry.1 ≤ 120) entries
    → length (summary_or otherwise kind entries) ≤ 120
unfolding summary_or
length-summary_or otherwise kind [] h hs = h
length-summary_or otherwise kind ((k, w) ∷ entries) h (first, hs) =
    ground (arith, length-summary_or otherwise kind entries h hs)

length-quoted_or :
    (otherwise : Text) (v : Option Value)
    → length otherwise ≤ 120
    → length (quoted_or otherwise v) ≤ 120
unfolding quoted_or
length-quoted_or otherwise none h = h
length-quoted_or otherwise (some other) h = h
length-quoted_or otherwise (some (words w)) h = ground (arith, length-clamp w)

length-template_preview : (name : Option Text) → length (template_preview name) ≤ 120
unfolding template_preview
length-template_preview none = omega arith
length-template_preview (some []) = omega arith
length-template_preview (some (c ∷ s)) = length-clamp (codes "Template " ++ (183 ∷ b' ' ∷ c ∷ s))

summaries_in : All (λ entry. length entry.1 ≤ 120) inbound_summary
summaries_in = (
  omega arith,
  (
    omega arith,
    (
      omega arith,
      (
        omega arith,
        (
          omega arith,
          (
            omega arith,
            (
              omega arith,
              (omega arith, (omega arith, (omega arith, (omega arith, (omega arith, tt))))),
            ),
          ),
        ),
      ),
    ),
  ),
)

summaries_out : All (λ entry. length entry.1 ≤ 120) outbound_summary
summaries_out = (
  omega arith,
  (
    omega arith,
    (
      omega arith,
      (omega arith, (omega arith, (omega arith, (omega arith, (omega arith, (omega arith, tt)))))),
    ),
  ),
)

-- Every preview, of a reply of any kind and payload or of a message that is sent, has at most 120
-- code units.
pub length-preview :
    (kind : Text) (payload : InboundPayload) (sent : OutboundPayload) (template_name : Option Text)
    → (length (inbound_preview kind payload) ≤ 120)
      × (length (outbound_preview kind sent template_name) ≤ 120)
unfolding inbound_preview outbound_preview
length-preview kind payload sent template_name =
    let received =
      length-summary_or (codes "Sent a message") kind inbound_summary (omega arith) summaries_in in
    let plain =
      length-summary_or (codes "Message") kind outbound_summary (omega arith) summaries_out in
    let asked =
      length-quoted_or (summary_or (codes "Message") kind outbound_summary) sent.interactive_text
        plain in
    let named = length-template_preview (name_or template_name sent.template_name) in
    let fields = value_or sent.body sent.caption in
    (
      length-quoted_or (summary_or (codes "Sent a message") kind inbound_summary)
          (value_or payload.body (value_or payload.caption payload.text)) received,
      elim (Bool-cases (text_eq kind (codes "template"))) [
        | inl template ↦ rw template named
        | inr otherwise ↦ elim (Bool-cases (text_eq kind (codes "interactive"))) [
          | inl interactive ↦
              rw (otherwise, interactive)
                (length-quoted_or
                  (quoted_or (summary_or (codes "Message") kind outbound_summary)
                    sent.interactive_text)
                  fields asked)
          | inr else_ ↦
              rw (otherwise, else_)
                (length-quoted_or (summary_or (codes "Message") kind outbound_summary) fields plain)
        ]
      ],
    )
