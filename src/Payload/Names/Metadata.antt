-- ===== src/Payload/Names/Metadata.antt =====
-- What is stored of a request and of its response: usageRequestMetadata and usageResponseMetadata of
-- cmd/api/usage_metadata.go.
use daiki_aipass_backend.Prelude.{
  ℕ, suc, String, Option, some, none, if◌then◌else◌, List, [], ◌∷◌, length,
}
use daiki_aipass_backend.Prelude.Int.{ℤ, is_pos}
use daiki_aipass_backend.Payload.{Json, Elements, object, array, text, element, stop}
use daiki_aipass_backend.Payload.Capped.{
  Bytes, Snapshot, stored_payload_limit, safe_payload_snapshot,
}
use daiki_aipass_backend.Payload.Names.{
  get, requested_tool_names, capability_names, response_tool_names, reasoning_tokens_from_payload,
}

-- `len(items)`
abbrev count_of : Elements → ℕ
count_of stop = 0
count_of (element item items) = suc (count_of items)

-- The entries that are there only if the body is a JSON object.
pub record Mentioned : Type 0 where
  pub tools : List String
  pub skills : List String
  pub mcp_servers : List String
  pub connectors : List String
  pub message_count : Option ℕ
  pub requested_model : Option String

pub record RequestMetadata : Type 0 where
  pub auth_kind : String
  pub api_key_id : String
  pub request_size_bytes : ℕ
  pub request_payload : Snapshot
  pub payload_snapshot_cap : ℕ
  pub mentioned : Option Mentioned

abbrev count_messages : Option Json → Option ℕ
count_messages (some (array items)) = some (count_of items)
count_messages v = none

abbrev model_name : Option Json → Option String
model_name (some (text model)) = some model
model_name v = none

unfoldable pub mentioned_in : Option Json → Option Mentioned
unfolding get requested_tool_names capability_names
mentioned_in (some (object ms)) =
    let payload = object ms in
    some (record {
      tools = requested_tool_names payload;
      skills = capability_names payload ("skills" ∷ []);
      mcp_servers = capability_names payload ("mcpServers" ∷ "mcp_servers" ∷ "mcp" ∷ []);
      connectors = capability_names payload ("connectors" ∷ "connections" ∷ []);
      message_count = count_messages (get (some payload) "messages");
      requested_model = model_name (get (some payload) "model");
    })
mentioned_in v = none

pub record ResponseMetadata : Type 0 where
  pub response_size_bytes : ℕ
  pub response_payload : Snapshot
  pub tools_used : List String
  pub reasoning_tokens : Option ℤ

module _ (unmarshal : Bytes → Option Json) (marshal : Json → Option Bytes) where
  -- usageRequestMetadata
  unfoldable pub usage_request_metadata : Bytes → String → String → RequestMetadata
  unfolding mentioned_in safe_payload_snapshot
  usage_request_metadata body auth_kind api_key_id = record {
    auth_kind = auth_kind;
    api_key_id = api_key_id;
    request_size_bytes = length body;
    request_payload = safe_payload_snapshot unmarshal marshal body;
    payload_snapshot_cap = stored_payload_limit;
    mentioned = mentioned_in (unmarshal body);
  }

  -- usageResponseMetadata; `decode` reads the text of an event, and `parse` its count of reasoning
  -- tokens.
  unfoldable pub usage_response_metadata :
      (Bytes → String) → (String → Option Json) → (String → ℤ) → Bytes → ResponseMetadata
  unfolding safe_payload_snapshot response_tool_names reasoning_tokens_from_payload
  usage_response_metadata text_of decode parse body =
      let reasoning = reasoning_tokens_from_payload parse (text_of body) in
      record {
        response_size_bytes = length body;
        response_payload = safe_payload_snapshot unmarshal marshal body;
        tools_used = response_tool_names decode (text_of body);
        reasoning_tokens = if is_pos reasoning then some reasoning else none;
      }
