-- ===== src/ReadModel/CursorScenarios.antt =====
-- A cursor of the stream, encoded and decoded:
-- packages/kogg-operations/src/node/operations-read-model.ts.
use kogg.Prelude.{
  ◌-◌, ℕ, ℕ-Eq, ◌+◌, ◌≤◌, String, String-Eq, true, not, ◌&&◌, none, some, List, [], ◌∷◌, ◌==◌, ◌≡◌,
  refl, map, length, ltb, if◌then◌else◌, arith,
}
use kogg.Text.{codes, is_hex64}
use kogg.ReadModel.RunPages.{PagePosition}
use kogg.ReadModel.Cursors.{
  Coding, json_object, stream_cursor, cursor_kind_text, Cursor, cursor_text, sign_payload,
  cursor_at, encode_cursor, decoded, cursor_resync_required, decode_cursor,
}
use kogg.ReadModel.Coded.{IsCoded, cursor_members, decode_cursor-encode_cursor}
use kogg.ReadModel.Scenarios.{platform, sample_digest}

abbrev position : PagePosition
position = record { last_key = "7"; sort_key = "" }

abbrev epoch : String
epoch = "epoch"

abbrev cursor : Cursor
cursor = cursor_at epoch 1000 stream_cursor sample_digest position

-- Texts are encoded by their code points, moved behind the dot; the one text is decoded.
abbrev shifted : String → List ℕ
shifted s = map (λ c. c + 100) (codes s)

abbrev coding : Coding
coding = record {
  encode_text = shifted;
  decode_text = λ units. cursor_text platform cursor;
  encode_bytes = map (λ b. b + 100);
  decode_bytes = map (λ c. c - 100);
  hmac = λ key payload. length payload ∷ [];
  parse = λ text.
      if text == cursor_text platform cursor
      then some (json_object (cursor_members cursor))
      else none;
}

cursor-IsCoded : IsCoded coding platform "key" cursor
unfolding cursor_text cursor_kind_text
cursor-IsCoded = record {
  text_back = refl;
  signature_back = refl;
  payload_part = refl;
  signature_part = refl;
  parsed = refl;
}

digest-valid : is_hex64 sample_digest ≡ true
unfolding is_hex64
digest-valid = refl

encoded-short :
    length (encode_cursor coding platform "key" epoch 1000 stream_cursor sample_digest position)
    ≤ 2048
unfolding encode_cursor sign_payload cursor_text cursor_kind_text
encoded-short = omega arith

decode_cursor-encode_cursor_example :
    decode_cursor coding "key" epoch 2000 stream_cursor sample_digest
      (encode_cursor coding platform "key" epoch 1000 stream_cursor sample_digest position)
    ≡ (if cursor_kind_text stream_cursor == cursor_kind_text stream_cursor
          && (sample_digest == sample_digest && (epoch == epoch && not (ltb (1000 + 900000) 2000)))
        then decoded position
        else cursor_resync_required)
decode_cursor-encode_cursor_example =
    decode_cursor-encode_cursor coding platform "key" epoch epoch 1000 2000 stream_cursor
      stream_cursor sample_digest sample_digest position cursor-IsCoded digest-valid encoded-short
