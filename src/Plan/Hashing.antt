-- ===== src/Plan/Hashing.antt =====
-- `compute_item_id` and `compute_chunk_id` of ssat/core/plan/hashing.py. The digest is a parameter:
-- the SHA-256 of the canonical JSON of an envelope, whose fields the envelopes here hold.
use region_sensitivity.Prelude.{ℕ, ◌≡◌, true, String, Bool, List, [], ◌∷◌, if◌then◌else◌}
use region_sensitivity.Json.{Json}
use region_sensitivity.Outcome.{Result, ok, err, value_error}
use region_sensitivity.Work.{PerturbationOp, RegionSpec, is_sha256, is_blank}

-- `_item_identity_payload`
pub record IdentityPayload : Type 0 where
  pub sample_id : String
  pub region_spec : RegionSpec
  pub perturb_op : PerturbationOp
  pub perturb_params : List (String × Json)
  pub invert_mask : Bool
  pub seed_salt : ℕ
  pub is_control : Bool

pub data Envelope : Type 0 where
  work_item : (schema_version : String) → IdentityPayload → Envelope
  work_chunk :
      (schema_version : String)
      → (sample_id : String) → (ordinal : ℕ) → (item_ids : List String) → Envelope

pub record Digest : Type 0 where
  pub digest : Envelope → String
  -- `hexdigest()` of a SHA-256
  pub digest-is_sha256 : (e : Envelope) → is_sha256 (digest e) ≡ true

module _ (d : Digest) where
  unfoldable pub compute_item_id : String → IdentityPayload → String
  compute_item_id schema_version payload = d.digest (work_item schema_version payload)

  abbrev is_nil : List String → Bool
  is_nil [] = Bool.true
  is_nil (_ ∷ _) = Bool.false

  unfoldable pub compute_chunk_id : String → String → ℕ → List String → Result String
  compute_chunk_id schema_version sample_id ordinal item_ids =
      if is_blank sample_id
      then err (value_error "sample_id must not be empty")
      else if is_nil item_ids
      then err (value_error "item_ids must not be empty")
      else ok (d.digest (work_chunk schema_version sample_id ordinal item_ids))
