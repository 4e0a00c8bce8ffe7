-- ===== src/Providers/Codex.antt =====
-- `handleCodexStreamEvent` and `codexStreamText` of packages/kogg-providers/src/node/sse.ts. A field
-- of an event that is not a text is none; `JSON.parse` is a parameter.
use kogg.Prelude.{
  ℕ, Bool, true, false, ◌||◌, Option, none, some, List, [], ◌∷◌, ◌++◌, ◌==◌, String, String-Eq,
  find?, take, if◌then◌else◌,
}
use kogg.Text.{codes}
use kogg.Providers.Sse.{Signal, trim_start}

pub record OutputText : Type 0 where
  pub kind : Option String
  pub text : Option (List ℕ)

pub record OutputItem : Type 0 where
  pub kind : Option String
  pub content : List OutputText

pub record CodexEvent : Type 0 where
  pub kind : Option String
  pub delta : Option (List ℕ)
  pub text : Option (List ℕ)
  pub output : List OutputItem
  pub item_kind : Option String
  pub item_message : Option (List ℕ)

pub record CodexStreamState : Type 0 where
  pub parts : List (List ℕ)
  pub saw_delta : Bool
  pub error : Option (List ℕ)

-- `value === text`, for a value that may be missing.
unfoldable pub is_text : String → Option String → Bool
is_text text none = false
is_text text (some value) = value == text

reverse_onto : List ℕ → List ℕ → List ℕ
reverse_onto [] acc = acc
reverse_onto (c ∷ cs) acc = reverse_onto cs (c ∷ acc)

unfoldable pub trim : List ℕ → List ℕ
unfolding reverse_onto
trim cs = reverse_onto (trim_start (reverse_onto (trim_start cs) [])) []

unfoldable pub join : List (List ℕ) → List ℕ
join [] = []
join (part ∷ parts) = part ++ join parts

unfoldable pub codex_stream_text : CodexStreamState → List ℕ
codex_stream_text state = trim (join state.parts)

-- A text with something in it, without the white space around it.
unfoldable pub trimmed : Option (List ℕ) → Option (List ℕ)
trimmed none = none
trimmed (some cs) = elim (trim cs) [ [] ↦ none | c ∷ rest ↦ some (c ∷ rest) ]

first_text : Option (List ℕ) → Option (List ℕ) → List ℕ
first_text (some delta) text = delta
first_text none (some text) = text
first_text none none = []

-- `if (!state.sawDelta) state.parts.push(text)`.
unfoldable pub push_unless_seen : List ℕ → CodexStreamState → CodexStreamState
push_unless_seen text state =
    if state.saw_delta then state else record state { parts = state.parts ++ text ∷ [] }

unfoldable pub push_delta : List ℕ → CodexStreamState → CodexStreamState
push_delta [] state = state
push_delta (c ∷ cs) state = record state { parts = state.parts ++ (c ∷ cs) ∷ []; saw_delta = true }

-- The reply stands in the first `output_text` of the first message.
unfoldable pub completed_text : List OutputItem → Option (List ℕ)
completed_text output = elim (find? (λ (i : OutputItem). is_text "message" i.kind) output) [
  | none ↦ none
  | some message ↦ elim (find? (λ (t : OutputText). is_text "output_text" t.kind) message.content) [
    | none ↦ none
    | some t ↦ trimmed t.text
  ]
]

-- The terminal copy of the reply, and the stop.
unfoldable pub conclude_reply : Option (List ℕ) → CodexStreamState → Signal × CodexStreamState
conclude_reply none state = (Signal.proceeds, state)
conclude_reply (some text) state = (Signal.stops, push_unless_seen text state)

unfoldable pub stream_error : Option (List ℕ) → List ℕ
stream_error none = codes "the model stream failed"
stream_error (some message) = take 200 message

unfoldable pub handle_event : CodexEvent → CodexStreamState → Signal × CodexStreamState
unfolding first_text
handle_event event state =
    if is_text "response.failed" event.kind || is_text "error" event.item_kind
    then (Signal.throws, record state { error = some (stream_error event.item_message) })
    else if is_text "response.output_text.delta" event.kind
    then (Signal.proceeds, push_delta (first_text event.delta event.text) state)
    else if is_text "response.output_text.done" event.kind
    then conclude_reply (trimmed event.text) state
    else if is_text "response.completed" event.kind
    then conclude_reply (completed_text event.output) state
    else (Signal.proceeds, state)

-- A frame that is not JSON is skipped.
unfoldable pub handle_codex_stream_event :
    (List ℕ → Option CodexEvent) → List ℕ → CodexStreamState → Signal × CodexStreamState
handle_codex_stream_event parse raw state = elim (parse raw) [
  | none ↦ (Signal.proceeds, state)
  | some event ↦ handle_event event state
]
