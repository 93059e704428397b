-- ===== src/Model/Tables/RoundTrip.antt =====
-- The encoding and the decoding of table definitions (model.rs).
use mathlib.Core.List.{append_assoc, append-nil}
use eve_db.Base.{
  ℕ, ◌+◌, ◌*◌, ◌^◌, ◌≤◌, ◌<◌, ◌≡◌, refl, sym, ap, ◌∙◌, true, false, ◌||◌, List, [], ◌∷◌, ◌++◌,
  length, length-append, All, arith, ok, ◌==◌, as_corrupt,
}
use eve_db.Codec.LittleEndian.{Bytes, to_le_bytes, length-to_le_bytes}
use eve_db.Codec.Encoder
use eve_db.Codec.Decoder
use eve_db.Codec.Decoder.{Decoding, ◌>>=◌, ◌>>◌, pure}
use eve_db.Codec.Decoder.Utf8.{is_utf8}
use eve_db.Codec.Parses.{
  Parses, Parses-pure, Parses-then, Parses-bind, Parses-u8, Parses-u32, Parses-u64, Parses-count,
  Parses-string,
}
use eve_db.Model.{DataType, Field, Schema, Table}
use eve_db.Model.Fields.{flag}
use eve_db.Model.Records.{finished}
use eve_db.Model.Records.RoundTrip.{Parses-decode_flag, finished-whole}
use eve_db.Model.Schemas.{validate, validate_name}
use eve_db.Model.Schemas.Laws.{validate-length}
use eve_db.Model.Tables.{
  type_byte, encode_field, encode_field_list, encode_schemas, encode_table, decode_type,
  decode_field, decode_field_list, decode_schema, decode_schemas, decode_table,
}

abbrev pub IsText : Bytes → Type 0
IsText v = (length v < 2 ^ 64) × (is_utf8 v ≡ true)

abbrev pub text_bytes : Bytes → Bytes
text_bytes v = to_le_bytes 8 (length v) ++ v

abbrev pub field_bytes : Field → Bytes
field_bytes f =
    to_le_bytes 4 f.id ++ (text_bytes f.name ++ (type_byte f.data_type ∷ flag f.nullable ∷ []))

abbrev pub field_list_bytes : List Field → Bytes
field_list_bytes [] = []
field_list_bytes (f ∷ fs) = field_bytes f ++ field_list_bytes fs

abbrev pub schema_bytes : Schema → Bytes
schema_bytes s =
    to_le_bytes 8 s.version ++ (to_le_bytes 8 (length s.fields) ++ field_list_bytes s.fields)

abbrev pub schemas_bytes : List Schema → Bytes
schemas_bytes [] = []
schemas_bytes (s ∷ ss) = schema_bytes s ++ schemas_bytes ss

abbrev pub table_bytes : Table → Bytes
table_bytes t =
    to_le_bytes 8 t.id
    ++ (text_bytes t.name ++ (to_le_bytes 8 (length t.schemas) ++ schemas_bytes t.schemas))

encode_field-append : (f : Field) (e : Bytes) → encode_field f e ≡ e ++ field_bytes f
unfolding encode_field
encode_field-append f e = simp append_assoc

encode_field_list-append :
    (fs : List Field) (e : Bytes) → encode_field_list fs e ≡ e ++ field_list_bytes fs
unfolding encode_field_list
encode_field_list-append [] e = sym (append-nil e)
encode_field_list-append (f ∷ fs) e =
    encode_field_list-append fs (encode_field f e)
    ∙ ap (λ x. x ++ field_list_bytes fs) (encode_field-append f e)
    ∙ append_assoc e (field_bytes f) (field_list_bytes fs)

encode_schemas-append : (ss : List Schema) (e : Bytes) → encode_schemas ss e ≡ e ++ schemas_bytes ss
unfolding encode_schemas
encode_schemas-append [] e = sym (append-nil e)
encode_schemas-append (s ∷ ss) e =
    encode_schemas-append ss _ ∙ rw (encode_field_list-append s.fields _) (simp append_assoc)

pub encode_table-append : (t : Table) (e : Bytes) → encode_table t e ≡ e ++ table_bytes t
unfolding encode_table
encode_table-append t e = encode_schemas-append t.schemas _ ∙ simp append_assoc

Parses-decode_type : (t : DataType) → Parses decode_type (type_byte t ∷ []) t
unfolding decode_type
Parses-decode_type DataType.bool = Parses-then _ _ (Parses-u8 0) (λ d. refl)
Parses-decode_type DataType.int64 = Parses-then _ _ (Parses-u8 1) (λ d. refl)
Parses-decode_type DataType.uint64 = Parses-then _ _ (Parses-u8 2) (λ d. refl)
Parses-decode_type DataType.float64 = Parses-then _ _ (Parses-u8 3) (λ d. refl)
Parses-decode_type DataType.text = Parses-then _ _ (Parses-u8 4) (λ d. refl)
Parses-decode_type DataType.bytes = Parses-then _ _ (Parses-u8 5) (λ d. refl)

abbrev pub IsField : Field → Type 0
IsField f = (f.id < 2 ^ 32) × IsText f.name

Parses-decode_field : (f : Field) → IsField f → Parses decode_field (field_bytes f) f
unfolding decode_field
Parses-decode_field f h = Parses-bind _ (to_le_bytes 4 f.id) _ (Parses-u32 f.id h.0) (
    Parses-bind _ (text_bytes f.name) _ (Parses-string f.name h.1.0 h.1.1) (
      Parses-bind _ (type_byte f.data_type ∷ []) _ (Parses-decode_type f.data_type)
        (Parses-then _ _ (Parses-decode_flag _ f.nullable) (λ d. refl))))

Parses-decode_field_list :
    (fs done : List Field)
    → All IsField fs
    → Parses (decode_field_list (length fs) done) (field_list_bytes fs) (done ++ fs)
unfolding decode_field_list
Parses-decode_field_list [] done h = rw append-nil (Parses-pure done)
Parses-decode_field_list (f ∷ fs) done h =
    Parses-bind _ (field_bytes f) (field_list_bytes fs) (Parses-decode_field f h.0)
      (rw (append_assoc done (f ∷ []) fs) at (Parses-decode_field_list fs (done ++ f ∷ []) h.1))

length-field_list_bytes : (fs : List Field) → length fs * 14 ≤ length (field_list_bytes fs)
length-field_list_bytes [] = omega arith
length-field_list_bytes (f ∷ fs) = omega (
  arith,
  length-append (field_bytes f) (field_list_bytes fs),
  length-append (to_le_bytes 4 f.id)
      (text_bytes f.name ++ (type_byte f.data_type ∷ flag f.nullable ∷ [])),
  length-append (text_bytes f.name) (type_byte f.data_type ∷ flag f.nullable ∷ []),
  length-append (to_le_bytes 8 (length f.name)) f.name,
  length-to_le_bytes 4 f.id,
  length-to_le_bytes 8 (length f.name),
  length-field_list_bytes fs,
)

-- A schema that the engine holds at some place of a table's history.
pub record IsSchema (position : ℕ) (s : Schema) : Type 0 where
  pub in_place : s.version ≡ position + 1
  pub version_fits : s.version < 2 ^ 64
  pub fields_typed : All IsField s.fields
  pub valid : validate s ≡ ok tt

Parses-decode_schema :
    (position : ℕ) (s : Schema)
    → IsSchema position s
    → Parses (decode_schema position) (schema_bytes s) s
unfolding decode_schema
Parses-decode_schema position s h =
    let few = validate-length s h.valid in
    Parses-bind _ (to_le_bytes 8 s.version) _ (Parses-u64 s.version h.version_fits) (
      Parses-count (length s.fields) 14 _ (field_list_bytes s.fields) (omega (arith, few))
        (omega (arith, length-field_list_bytes s.fields))
        (Parses-then _ _ (Parses-decode_field_list s.fields [] h.fields_typed)
          (λ d. rw (h.valid, as_corrupt) (ground (arith, h.in_place)))))

abbrev pub AreSchemas : ℕ → List Schema → Type 0
AreSchemas position [] = Unit
AreSchemas position (s ∷ ss) = IsSchema position s × AreSchemas (position + 1) ss

Parses-decode_schemas :
    (ss done : List Schema) (position : ℕ)
    → position ≡ length done
    → AreSchemas position ss
    → Parses (decode_schemas (length ss) done) (schemas_bytes ss) (done ++ ss)
unfolding decode_schemas
Parses-decode_schemas [] done position p h = rw append-nil (Parses-pure done)
Parses-decode_schemas (s ∷ ss) done position p h =
    Parses-bind _ (schema_bytes s) (schemas_bytes ss)
      (rw p at (Parses-decode_schema position s h.0))
      (rw (append_assoc done (s ∷ []) ss) at (
        Parses-decode_schemas ss (done ++ s ∷ []) (position + 1)
          (omega (arith, length-append done (s ∷ []))) h.1))

length-schemas_bytes : (ss : List Schema) → length ss * 16 ≤ length (schemas_bytes ss)
length-schemas_bytes [] = omega arith
length-schemas_bytes (s ∷ ss) = omega (
  arith,
  length-append (schema_bytes s) (schemas_bytes ss),
  length-append (to_le_bytes 8 s.version)
      (to_le_bytes 8 (length s.fields) ++ field_list_bytes s.fields),
  length-append (to_le_bytes 8 (length s.fields)) (field_list_bytes s.fields),
  length-to_le_bytes 8 s.version,
  length-to_le_bytes 8 (length s.fields),
  length-schemas_bytes ss,
)

-- A table of the catalog.
pub record IsTable (t : Table) : Type 0 where
  pub id_fits : t.id < 2 ^ 64
  pub id_used : 0 < t.id
  pub name_typed : IsText t.name
  pub name_valid : validate_name t.name ≡ ok tt
  pub schemas_valid : AreSchemas 0 t.schemas
  pub has_schema : 0 < length t.schemas
  pub size_fits : length (table_bytes t) < 2 ^ 64

pub length-schemas-lt : (t : Table) → length (table_bytes t) < 2 ^ 64 → length t.schemas < 2 ^ 64
length-schemas-lt t h = omega (
  arith,
  length-append (to_le_bytes 8 t.id)
      (text_bytes t.name ++ (to_le_bytes 8 (length t.schemas) ++ schemas_bytes t.schemas)),
  length-append (text_bytes t.name) (to_le_bytes 8 (length t.schemas) ++ schemas_bytes t.schemas),
  length-append (to_le_bytes 8 (length t.schemas)) (schemas_bytes t.schemas),
  length-schemas_bytes t.schemas,
)

-- `decode_table` reads back what `encode_table` wrote, whatever bytes follow.
pub Parses-decode_table : (t : Table) → IsTable t → Parses decode_table (table_bytes t) t
unfolding decode_table
Parses-decode_table t h =
    let used : (t.id == 0 || length t.schemas == 0) ≡ false =
      ground (arith, h.id_used, h.has_schema) in
    Parses-bind _ (to_le_bytes 8 t.id) _ (Parses-u64 t.id h.id_fits) (
      Parses-bind _ (text_bytes t.name) _ (Parses-string t.name h.name_typed.0 h.name_typed.1) (
        Parses-count (length t.schemas) 16 _ (schemas_bytes t.schemas)
          (length-schemas-lt t h.size_fits) (omega (arith, length-schemas_bytes t.schemas))
          (Parses-then _ _ (Parses-decode_schemas t.schemas [] 0 refl h.schemas_valid)
            (λ d. rw used (rw h.name_valid refl)))))

-- A catalog table is decoded from its encoding, with no byte left: for numbers and texts of their
-- Rust types, a nonzero identifier, a valid name, and one schema or more, each valid and of the
-- version that its place gives, in an encoding that fits the address space.
pub decode_table-encode_table :
    (t : Table)
    → IsTable t
    → finished (decode_table (Decoder.new (encode_table t Encoder.new))) ≡ ok t
decode_table-encode_table t h =
    rw (encode_table-append t Encoder.new)
      (finished-whole decode_table (table_bytes t) t h.size_fits (Parses-decode_table t h))
