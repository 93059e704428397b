-- ===== src/Model/Records/Cursor.antt =====
-- The decoders of entities and events (model.rs) and their cursor.
use eve_db.Base.{String}
use eve_db.Codec.Cursor.{Stays, stays_rules}
use eve_db.Model.Fields.Cursor.{Stays-decode_fields}
use eve_db.Model.Records.{decode_flag, decode_kind, decode_entity_parts, decode_event_parts}

pub Stays-decode_flag : (message : String) → Stays (decode_flag message)
unfolding decode_flag
Stays-decode_flag message = search stays_rules depth 12

Stays-decode_kind : Stays decode_kind
unfolding decode_kind
Stays-decode_kind = search stays_rules depth 12

pub Stays-decode_entity_parts : Stays decode_entity_parts
unfolding decode_entity_parts
Stays-decode_entity_parts = search (stays_rules, Stays-decode_flag, Stays-decode_fields) depth 20

pub Stays-decode_event_parts : Stays decode_event_parts
unfolding decode_event_parts
Stays-decode_event_parts = search (stays_rules, Stays-decode_kind, Stays-decode_fields) depth 20
