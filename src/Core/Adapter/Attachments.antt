-- ===== src/Core/Adapter/Attachments.antt =====
-- packages/core/src/adapter.ts, resolveAttachments: the bytes of attachments are read before a turn.
-- `read` is the workspace's; it gives `none` where it rejects.
use open_source_harness.Common.{
  ℕ, ◌≡◌, refl, sym, ap, ◌∙◌, Bool, true, false, Option, none, some, List, [], ◌∷◌, Str, map, any,
  inl, inr, Bool-cases, arith, if◌then◌else◌,
}
use open_source_harness.Protocol.Messages.{
  Part, FilePart, text, reasoning, tool_call, tool_result, file, Message,
}

abbrev pub is_file : Part → Bool
is_file (file f) = true
is_file (text s) = false
is_file (reasoning r) = false
is_file (tool_call c) = false
is_file (tool_result r) = false

abbrev pub has_file : Message → Bool
has_file m = any is_file m.parts

module _ (read : Str → Option ℕ) where
  -- The part that `{ ...part, data }` builds, or the part itself where the read rejects.
  abbrev pub loaded : FilePart → Option ℕ → FilePart
  loaded part none = part
  loaded part (some data_) = record part { bytes = some data_ }

  -- `if (!part.path) return part`
  abbrev pub load_from : FilePart → Option Str → FilePart
  load_from part none = part
  load_from part (some []) = part
  load_from part (some (c ∷ path)) = loaded part (read (c ∷ path))

  abbrev pub load_unless : FilePart → Option ℕ → FilePart
  load_unless part none = load_from part part.path
  load_unless part (some data_) = part

  unfoldable pub resolve_part : Part → Part
  resolve_part (file f) = file (load_unless f f.bytes)
  resolve_part (text s) = text s
  resolve_part (reasoning r) = reasoning r
  resolve_part (tool_call c) = tool_call c
  resolve_part (tool_result r) = tool_result r

  unfoldable pub resolve_message : Message → Message
  unfolding resolve_part
  resolve_message m = if has_file m then record m { parts = map resolve_part m.parts } else m

  unfoldable pub resolve_attachments : List Message → List Message
  unfolding resolve_message
  resolve_attachments messages =
      if any has_file messages then map resolve_message messages else messages

  -- every file part, with no shortcut
  abbrev pub resolve_each : List Message → List Message
  resolve_each = map (λ (m : Message). record m { parts = map resolve_part m.parts })

  resolve_parts_without_file : (ps : List Part) → any is_file ps ≡ false → map resolve_part ps ≡ ps
  unfolding resolve_part
  resolve_parts_without_file [] h = refl
  resolve_parts_without_file (file f ∷ ps) h = absurd (ground arith)
  resolve_parts_without_file (text s ∷ ps) h = ap (◌∷◌ (text s)) (resolve_parts_without_file ps h)
  resolve_parts_without_file (reasoning r ∷ ps) h =
      ap (◌∷◌ (reasoning r)) (resolve_parts_without_file ps h)
  resolve_parts_without_file (tool_call c ∷ ps) h =
      ap (◌∷◌ (tool_call c)) (resolve_parts_without_file ps h)
  resolve_parts_without_file (tool_result r ∷ ps) h =
      ap (◌∷◌ (tool_result r)) (resolve_parts_without_file ps h)

  resolve_message_each :
      (m : Message) → resolve_message m ≡ record m { parts = map resolve_part m.parts }
  unfolding resolve_message
  resolve_message_each m = elim (Bool-cases (has_file m)) [
    | inl files ↦ rw files refl
    | inr without ↦
        rw without
          (ap (λ ps. record m { parts = ps }) (sym (resolve_parts_without_file m.parts without)))
  ]

  map_each : (ms : List Message) → map resolve_message ms ≡ resolve_each ms
  map_each [] = refl
  map_each (m ∷ ms) = rw (resolve_message_each m, map_each ms) refl

  none_with_file : (ms : List Message) → any has_file ms ≡ false → resolve_each ms ≡ ms
  none_with_file [] h = refl
  none_with_file (m ∷ ms) h =
      ap (λ ps. record m { parts = ps } ∷ resolve_each ms)
        (resolve_parts_without_file m.parts (ground arith))
      ∙ ap (◌∷◌ m) (none_with_file ms (ground arith))

  resolve_attachments-each : (ms : List Message) → resolve_attachments ms ≡ resolve_each ms
  unfolding resolve_attachments
  resolve_attachments-each ms = elim (Bool-cases (any has_file ms)) [
    | inl files ↦ rw files (map_each ms)
    | inr without ↦ rw without (sym (none_with_file ms without))
  ]

  abbrev part_of : Str → Option Str → Option Str → Option ℕ → FilePart
  part_of media_type filename path bytes = record {
    path = path;
    media_type = media_type;
    filename = filename;
    bytes = bytes;
  }

  load_again :
      (media_type : Str) (filename : Option Str) (c : ℕ) (path : Str) (r : Option ℕ)
      → read (c ∷ path) ≡ r
      → let f = loaded (part_of media_type filename (some (c ∷ path)) none) r in
        load_unless f f.bytes ≡ f
  load_again media_type filename c path none e = rw e refl
  load_again media_type filename c path (some data_) e = refl

  load_twice :
      (media_type : Str) (filename path : Option Str) (bytes : Option ℕ)
      → let f = part_of media_type filename path bytes in
        load_unless (load_unless f bytes) (load_unless f bytes).bytes ≡ load_unless f bytes
  load_twice media_type filename path (some data_) = refl
  load_twice media_type filename none none = refl
  load_twice media_type filename (some []) none = refl
  load_twice media_type filename (some (c ∷ path)) none =
      load_again media_type filename c path (read (c ∷ path)) refl

  resolve_part_twice : (p : Part) → resolve_part (resolve_part p) ≡ resolve_part p
  unfolding resolve_part
  resolve_part_twice (file f) = ap file (load_twice f.media_type f.filename f.path f.bytes)
  resolve_part_twice (text s) = refl
  resolve_part_twice (reasoning r) = refl
  resolve_part_twice (tool_call c) = refl
  resolve_part_twice (tool_result r) = refl

  map_twice : (ps : List Part) → map resolve_part (map resolve_part ps) ≡ map resolve_part ps
  map_twice [] = refl
  map_twice (p ∷ ps) = rw (resolve_part_twice p, map_twice ps) refl

  each_twice : (ms : List Message) → resolve_each (resolve_each ms) ≡ resolve_each ms
  each_twice [] = refl
  each_twice (m ∷ ms) =
      ap (λ ps. record m { parts = ps } ∷ resolve_each (resolve_each ms)) (map_twice m.parts)
      ∙ ap (◌∷◌ (record m { parts = map resolve_part m.parts })) (each_twice ms)

  -- Resolving the attachments of a conversation treats every file part alike, whichever shortcut is
  -- taken, and doing it again changes nothing: a part that has its bytes is not read again, and one
  -- that could not be read stays as it is.
  pub resolve_attachments_idempotent :
      (ms : List Message)
      → (resolve_attachments ms ≡ resolve_each ms)
        × (resolve_attachments (resolve_attachments ms) ≡ resolve_attachments ms)
  resolve_attachments_idempotent ms = (
    resolve_attachments-each ms,
    ap resolve_attachments (resolve_attachments-each ms)
        ∙ resolve_attachments-each (resolve_each ms)
        ∙ each_twice ms
        ∙ sym (resolve_attachments-each ms),
  )
