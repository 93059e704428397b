-- ===== src/Model/Records/RoundTrip.antt =====
-- The encoding and the decoding of entities and events (model.rs).
use mathlib.Core.List.{append_assoc}
use eve_db.Base.{ℕ, ◌^◌, ◌<◌, ◌≡◌, refl, ◌∙◌, Bool, true, false, [], ◌∷◌, ◌++◌, length, ok, String}
use eve_db.Codec.LittleEndian.{Bytes, to_le_bytes}
use eve_db.Codec.Decoder
use eve_db.Codec.Decoder.{Decoder, Decoding, ◌>>=◌, pure}
use eve_db.Codec.Parses.{Parses, Parses-then, Parses-bind, Parses-u8, Parses-u64, Parses-whole}
use eve_db.Model.{Entity, Event, EventKind}
use eve_db.Model.Fields.{flag}
use eve_db.Model.Fields.RoundTrip.{
  IsFields, fields_code, encode_fields-append, Parses-decode_fields,
}
use eve_db.Model.Records.{
  encode_entity, decode_flag, decode_entity_parts, decode_entity, finished, kind_byte, encode_event,
  decode_kind, decode_event_parts, decode_event,
}

pub record IsEntity (e : Entity) : Type 0 where
  pub id_fits : e.id < 2 ^ 64
  pub version_fits : e.version < 2 ^ 64
  pub schema_fits : e.schema_version < 2 ^ 64
  pub fields_valid : IsFields e.fields
  pub size_fits : length (encode_entity e) < 2 ^ 64

pub record IsEvent (e : Event) : Type 0 where
  pub version_fits : e.version < 2 ^ 64
  pub transaction_fits : e.transaction < 2 ^ 64
  pub schema_fits : e.schema_version < 2 ^ 64
  pub fields_valid : IsFields e.fields
  pub size_fits : length (encode_event e) < 2 ^ 64

abbrev pub header_bytes : ℕ → ℕ → ℕ → ℕ → Bytes → Bytes
header_bytes a b c d rest =
    to_le_bytes 8 a ++ (to_le_bytes 8 b ++ (to_le_bytes 8 c ++ ((d ∷ []) ++ rest)))

pub encode_entity-bytes :
    (e : Entity)
    → encode_entity e
      ≡ header_bytes e.id e.version e.schema_version (flag e.deleted) (fields_code e.fields)
unfolding encode_entity
encode_entity-bytes e = encode_fields-append e.fields _ ∙ simp append_assoc

pub encode_event-bytes :
    (e : Event)
    → encode_event e
      ≡ header_bytes e.version e.transaction e.schema_version
          (kind_byte e.kind)
          (fields_code e.fields)
unfolding encode_event
encode_event-bytes e = encode_fields-append e.fields _ ∙ simp append_assoc

pub Parses-decode_flag :
    (message : String) (b : Bool) → Parses (decode_flag message) (flag b ∷ []) b
unfolding decode_flag
Parses-decode_flag message false = Parses-then _ _ (Parses-u8 0) (λ d. refl)
Parses-decode_flag message true = Parses-then _ _ (Parses-u8 1) (λ d. refl)

Parses-decode_kind : (k : EventKind) → Parses decode_kind (kind_byte k ∷ []) k
unfolding decode_kind
Parses-decode_kind EventKind.apply = Parses-then _ _ (Parses-u8 0) (λ d. refl)
Parses-decode_kind EventKind.delete = Parses-then _ _ (Parses-u8 1) (λ d. refl)

Parses-entity :
    (e : Entity)
    → IsEntity e
    → Parses decode_entity_parts
        (header_bytes e.id e.version e.schema_version (flag e.deleted) (fields_code e.fields))
        e
unfolding decode_entity_parts
Parses-entity e h = Parses-bind _ (to_le_bytes 8 e.id) _ (Parses-u64 e.id h.id_fits) (
    Parses-bind _ (to_le_bytes 8 e.version) _ (Parses-u64 e.version h.version_fits) (
      Parses-bind _ (to_le_bytes 8 e.schema_version) _ (Parses-u64 e.schema_version h.schema_fits) (
        Parses-bind _ (flag e.deleted ∷ []) _ (Parses-decode_flag _ e.deleted)
          (Parses-then _ _ (Parses-decode_fields e.fields h.fields_valid) (λ d. refl)))))

Parses-event :
    (e : Event)
    → IsEvent e
    → Parses decode_event_parts
        (header_bytes e.version e.transaction e.schema_version
          (kind_byte e.kind)
          (fields_code e.fields))
        e
unfolding decode_event_parts
Parses-event e h = Parses-bind _ (to_le_bytes 8 e.version) _ (Parses-u64 e.version h.version_fits) (
    Parses-bind _ (to_le_bytes 8 e.transaction) _ (Parses-u64 e.transaction h.transaction_fits) (
      Parses-bind _ (to_le_bytes 8 e.schema_version) _ (Parses-u64 e.schema_version h.schema_fits) (
        Parses-bind _ (kind_byte e.kind ∷ []) _ (Parses-decode_kind e.kind)
          (Parses-then _ _ (Parses-decode_fields e.fields h.fields_valid) (λ d. refl)))))

pub finished-whole {ℓ} :
    {A : Type ℓ} (m : Decoding A) (xs : Bytes) (a : A)
    → length xs < 2 ^ 64
    → Parses m xs a
    → finished (m (Decoder.new xs)) ≡ ok a
finished-whole m xs a h p =
    let (read, ended) = Parses-whole xs h p in rw read (rw (ended, finished) refl)

-- An entity whose numbers have their Rust types, whose fields are sorted, valid and at most 4096,
-- and whose encoding fits the address space is decoded from its encoding.
pub decode_entity-encode_entity : (e : Entity) → IsEntity e → decode_entity (encode_entity e) ≡ ok e
unfolding decode_entity
decode_entity-encode_entity e h =
    finished-whole decode_entity_parts (encode_entity e) e h.size_fits
      (rw (encode_entity-bytes e) (Parses-entity e h))

-- An event whose numbers have their Rust types, whose fields are sorted, valid and at most 4096,
-- and whose encoding fits the address space is decoded from its encoding.
pub decode_event-encode_event : (e : Event) → IsEvent e → decode_event (encode_event e) ≡ ok e
unfolding decode_event
decode_event-encode_event e h =
    finished-whole decode_event_parts (encode_event e) e h.size_fits
      (rw (encode_event-bytes e) (Parses-event e h))
