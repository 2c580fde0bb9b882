-- ===== src/Payload/Capped.antt =====
-- What is kept of request and response bodies: cappedBuffer and safePayloadSnapshot of
-- cmd/api/usage_metadata.go. A body is a list of bytes.
pub mod Limits
use daiki_aipass_backend.Prelude.{
  ℕ, ◌-◌, Option, some, none, Bool, leb, ltb, if◌then◌else◌, List, [], ◌∷◌, ◌++◌, length, take,
}
use daiki_aipass_backend.Payload.{Json, redact_value}

abbrev pub Bytes : Type 0
Bytes = List ℕ

-- storedPayloadLimit
abbrev pub stored_payload_limit : ℕ
stored_payload_limit = 262144

-- cappedBuffer
pub record CappedBuffer : Type 0 where
  pub buf : Bytes
  pub max : ℕ

-- The part of `p` that Write keeps when `remaining` bytes are left.
abbrev pub cut : ℕ → Bytes → Bytes
cut remaining p = if ltb remaining (length p) then take remaining p else p

-- cappedBuffer.Write, with the number it returns.
unfoldable pub write : CappedBuffer → Bytes → CappedBuffer × ℕ
write c p =
    let original = length p in
    let remaining = c.max - length c.buf in
    if ltb 0 remaining
    then (record { buf = c.buf ++ cut remaining p; max = c.max }, original)
    else (c, original)

-- The writes of a body that arrives in chunks, with the numbers they return.
unfoldable pub write_all : CappedBuffer → List Bytes → CappedBuffer × List ℕ
unfolding write
write_all c [] = (c, [])
write_all c (p ∷ ps) =
    let first = write c p in let others = write_all first.0 ps in (others.0, first.1 ∷ others.1)

-- What safePayloadSnapshot returns.
pub data Snapshot : Type 0 where
  no_payload : Snapshot
  whole : Json → Snapshot
  -- `{"truncated": true, "sizeBytes": …, "preview": …}`
  truncated : ℕ → Bytes → Snapshot
  -- `{"raw": …, "truncated": …, "sizeBytes": …}`
  raw : Bytes → Bool → ℕ → Snapshot

-- The last lines of safePayloadSnapshot: the body as it came.
unfoldable pub raw_snapshot : Bytes → Snapshot
raw_snapshot body =
    let preview =
      if ltb stored_payload_limit (length body) then take stored_payload_limit body else body in
    raw preview (ltb (length preview) (length body)) (length body)

module _ (unmarshal : Bytes → Option Json) (marshal : Json → Option Bytes) where
  unfoldable pub encoded_snapshot : Bytes → Json → Snapshot
  unfolding raw_snapshot
  encoded_snapshot body v = elim (marshal v) [
    | none ↦ raw_snapshot body
    | some encoded ↦
        if leb (length encoded) stored_payload_limit
        then whole v
        else truncated (length encoded) (take stored_payload_limit encoded)
  ]

  -- safePayloadSnapshot
  unfoldable pub safe_payload_snapshot : Bytes → Snapshot
  unfolding raw_snapshot encoded_snapshot redact_value
  safe_payload_snapshot [] = no_payload
  safe_payload_snapshot (b ∷ bs) = elim (unmarshal (b ∷ bs)) [
    | none ↦ raw_snapshot (b ∷ bs)
    | some v ↦ encoded_snapshot (b ∷ bs) (redact_value v)
  ]
