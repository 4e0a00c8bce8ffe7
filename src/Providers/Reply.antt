-- ===== src/Providers/Reply.antt =====
-- What adds to the text of a reply: packages/kogg-providers/src/node/sse.ts.
use kogg.Prelude.{
  ℕ, Bool, true, false, Option, none, some, List, ◌≡◌, refl, ap, Bool-cases, inl, inr, ◌||◌,
  String-Eq,
}
use kogg.Providers.Codex.{
  CodexEvent, CodexStreamState, is_text, handle_event, conclude_reply, push_unless_seen, trimmed,
  completed_text,
}

conclude_reply-seen :
    (text : Option (List ℕ)) (state : CodexStreamState)
    → state.saw_delta ≡ true
    → (conclude_reply text state).1 ≡ state
unfolding conclude_reply push_unless_seen
conclude_reply-seen none state seen = refl
conclude_reply-seen (some text) state seen = rw seen refl

-- The event is a delta.
abbrev pub is_delta : CodexEvent → Bool
is_delta event = is_text "response.output_text.delta" event.kind

-- Once a delta has been taken, an event that is no delta adds nothing to the reply and takes nothing
-- from it: the terminal copies of the same text are not taken again.
pub handle_event-seen :
    (event : CodexEvent) (state : CodexStreamState)
    → state.saw_delta ≡ true
    → is_delta event ≡ false
    → (handle_event event state).1.parts ≡ state.parts
unfolding handle_event
handle_event-seen event state seen other =
    elim (Bool-cases (is_text "response.failed" event.kind || is_text "error" event.item_kind)) [
      | inl e ↦ rw e refl
      | inr e ↦
          rw (e, other)
            (elim (Bool-cases (is_text "response.output_text.done" event.kind)) [
              | inl f ↦ rw f (
                  ap (λ (s : CodexStreamState). s.parts)
                    (conclude_reply-seen (trimmed event.text) state seen))
              | inr f ↦ rw f (elim (Bool-cases (is_text "response.completed" event.kind)) [
                | inl g ↦ rw g (
                    ap (λ (s : CodexStreamState). s.parts)
                      (conclude_reply-seen (completed_text event.output) state seen))
                | inr g ↦ rw g refl
              ])
            ])
    ]
