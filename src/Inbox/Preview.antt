-- ===== src/Inbox/Preview.antt =====
-- src/inbox/preview.ts and src/common/utils/phone.ts: the line that a conversation shows, and the
-- spelling of a phone number. A payload is the fields of it that are read; a value that is not a
-- string is `other`.
pub mod Bounds
use drasken_labs_communicati.Prelude.{
  ℕ, Text, Bool, true, false, List, [], ◌∷◌, ◌++◌, Option, none, some, codes, text_eq, length, take,
  ltb, is_digit, truthy, if◌then◌else◌,
}
use drasken_labs_communicati.Prelude.Trim.{is_space, trim}

-- `normalisePhone`.
unfoldable pub normalise_phone : Text → Text
normalise_phone [] = []
normalise_phone (c ∷ s) = let rest = normalise_phone s in if is_digit c then c ∷ rest else rest

-- `MAX_PREVIEW`.
abbrev pub max_preview : ℕ
max_preview = 120

abbrev pub inbound_summary : List (Text × Text)
inbound_summary =
    (codes "image", codes "Sent a photo")
    ∷ (codes "video", codes "Sent a video")
    ∷ (codes "audio", codes "Sent a voice message")
    ∷ (codes "document", codes "Sent a document")
    ∷ (codes "sticker", codes "Sent a sticker")
    ∷ (codes "location", codes "Shared a location")
    ∷ (codes "contacts", codes "Shared a contact")
    ∷ (codes "reaction", codes "Reacted to a message")
    ∷ (codes "button", codes "Tapped a button")
    ∷ (codes "interactive", codes "Made a choice")
    ∷ (codes "order", codes "Sent an order")
    ∷ (codes "unsupported", codes "Sent an unsupported message")
    ∷ []

abbrev pub outbound_summary : List (Text × Text)
outbound_summary =
    (codes "image", codes "Photo")
    ∷ (codes "video", codes "Video")
    ∷ (codes "audio", codes "Voice message")
    ∷ (codes "document", codes "Document")
    ∷ (codes "location", codes "Location")
    ∷ (codes "contacts", codes "Contact")
    ∷ (codes "reaction", codes "Reaction")
    ∷ (codes "interactive", codes "Interactive message")
    ∷ (codes "template", codes "Template")
    ∷ []

-- `SUMMARY[type] ?? otherwise`.
unfoldable pub summary_or : Text → Text → List (Text × Text) → Text
summary_or otherwise kind [] = otherwise
summary_or otherwise kind ((k, words) ∷ entries) =
    if text_eq k kind then words else summary_or otherwise kind entries

-- `replace(/\s+/g, ' ')`; the flag says that a space has just been written.
unfoldable pub collapse : Bool → Text → Text
collapse after_space [] = []
collapse after_space (c ∷ s) =
    let spaced = collapse true s in
    let plain = collapse false s in
    if is_space c then (if after_space then spaced else b' ' ∷ spaced) else c ∷ plain

abbrev pub shortened : Text → Text
shortened clean = if ltb max_preview (length clean) then take 119 clean ++ 8230 ∷ [] else clean

unfoldable pub clamp : Text → Text
clamp text = shortened (trim (collapse false text))

pub data Value : Type 0 where
  words : Text → Value
  other : Value

-- `a ?? b`.
abbrev pub value_or : Option Value → Option Value → Option Value
value_or none b = b
value_or (some a) b = some a

-- `typeof words === 'string' && words.trim()`, and the preview of the words or another.
unfoldable pub quoted_or : Text → Option Value → Text
quoted_or otherwise none = otherwise
quoted_or otherwise (some other) = otherwise
quoted_or otherwise (some (words w)) = if truthy (some (trim w)) then clamp w else otherwise

pub record InboundPayload : Type 0 where
  pub body : Option Value
  pub caption : Option Value
  pub text : Option Value

unfoldable pub inbound_preview : Text → InboundPayload → Text
inbound_preview kind payload =
    quoted_or (summary_or (codes "Sent a message") kind inbound_summary)
      (value_or payload.body (value_or payload.caption payload.text))

-- The payload's block under the type, `template.name` and `interactive.body.text`.
pub record OutboundPayload : Type 0 where
  pub body : Option Value
  pub caption : Option Value
  pub template_name : Option Text
  pub interactive_text : Option Value

abbrev pub name_or : Option Text → Option Text → Option Text
name_or none b = b
name_or (some a) b = some a

-- "Template · " and a name.
unfoldable pub template_preview : Option Text → Text
template_preview none = codes "Template"
template_preview (some []) = codes "Template"
template_preview (some (c ∷ s)) = clamp (codes "Template " ++ (183 ∷ b' ' ∷ c ∷ s))

unfoldable pub outbound_preview : Text → OutboundPayload → Option Text → Text
outbound_preview kind payload template_name =
    let plain = summary_or (codes "Message") kind outbound_summary in
    let last =
      if text_eq kind (codes "interactive")
      then quoted_or plain payload.interactive_text
      else plain in
    if text_eq kind (codes "template")
    then template_preview (name_or template_name payload.template_name)
    else quoted_or last (value_or payload.body payload.caption)
