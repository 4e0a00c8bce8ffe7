-- ===== src/Providers/Scenarios.antt =====
-- A stream cut inside its separators: packages/kogg-providers/src/node/sse.ts.
use kogg.Prelude.{ℕ, none, some, true, false, List, [], ◌∷◌, ◌++◌, ◌≡◌, refl}
use kogg.Text.{codes}
use kogg.Providers.Sse.{Handler, Signal, Closing, consume_sse_stream}
use kogg.Providers.Codex.{CodexEvent, CodexStreamState, handle_event, is_text}
use kogg.Providers.Reply.{handle_event-seen}
use kogg.Providers.Chunks.{concat, read_whole, consume_sse_stream-whole}

abbrev collect : Handler (List (List ℕ))
collect cs seen = (Signal.proceeds, seen ++ cs ∷ [])

abbrev pieces : List (List ℕ)
pieces = codes "da" ∷ codes "ta: a\n" ∷ codes "\nid: 1\ndata:b\n\n" ∷ codes "data: c" ∷ []

consume_sse_stream-whole_example :
    consume_sse_stream collect Closing.closes pieces []
    ≡ read_whole collect Closing.closes (concat pieces) []
consume_sse_stream-whole_example = consume_sse_stream-whole collect Closing.closes pieces []

abbrev replied : CodexStreamState
replied = record { parts = codes "Hel" ∷ codes "lo" ∷ []; saw_delta = true; error = none }

abbrev reply_done : CodexEvent
reply_done = record {
  kind = some "response.output_text.done";
  delta = none;
  text = some (codes "Hello");
  output = [];
  item_kind = none;
  item_message = none;
}

reply_done_is_no_delta : is_text "response.output_text.delta" reply_done.kind ≡ false
unfolding is_text
reply_done_is_no_delta = refl

handle_event-seen_example : (handle_event reply_done replied).1.parts ≡ replied.parts
handle_event-seen_example = handle_event-seen reply_done replied refl reply_done_is_no_delta
