-- ===== src/Engine/Fingerprint.antt =====
-- Fingerprints of payloads: `stableValue`, `fingerprint` and the two idempotency fingerprints.
use loyalty_interchange_prot.Base.{String, Option, none, some, Ordering, option_elim, if◌then◌else◌}
use loyalty_interchange_prot.Base.Sort.{not_after}
use loyalty_interchange_prot.Base.Json.{
  Json, undefined, null, boolean, number, str, arr, obj, Items, nil, cons, Fields, end, field,
  get_field, without, set_field,
}
use loyalty_interchange_prot.Exec.{pure, throw, runtime_error, branch}
use loyalty_interchange_prot.Engine.State.{Env, Method}

module _ (locale_compare : String → String → Ordering) where
  -- one field put where its key belongs; it stood before the fields of the list
  unfoldable pub place_field : String → Json → Fields → Fields
  place_field k v end = field k v end
  place_field k v (field j w fs) =
      if not_after (locale_compare k j)
      then field k v (field j w fs)
      else field j w (place_field k v fs)

unfoldable mutual
  unfolding place_field

  pub stable_value : (String → String → Ordering) → Json → Json
  stable_value locale_compare (arr xs) = arr (stable_items locale_compare xs)
  stable_value locale_compare (obj fs) = obj (stable_fields locale_compare fs)
  stable_value locale_compare undefined = undefined
  stable_value locale_compare null = null
  stable_value locale_compare (boolean b) = boolean b
  stable_value locale_compare (number n) = number n
  stable_value locale_compare (str s) = str s

  pub stable_items : (String → String → Ordering) → Items → Items
  stable_items locale_compare nil = nil
  stable_items locale_compare (cons x xs) =
      cons (stable_value locale_compare x) (stable_items locale_compare xs)

  pub stable_fields : (String → String → Ordering) → Fields → Fields
  stable_fields locale_compare end = end
  stable_fields locale_compare (field k v fs) =
      place_field locale_compare k (stable_value locale_compare v) (stable_fields locale_compare fs)

-- what version 1 hashes: the request without `context.request_id`
unfoldable pub payload_v1 : Json → Json
payload_v1 (obj request) = option_elim (get_field "context" request) (obj request) (λ context.
    elim context [
      | obj fields ↦ obj (set_field "context" (obj (without "request_id" fields)) request)
      | _ ↦ obj request
    ])
payload_v1 value = value

-- what version 2 hashes: the request without its context
unfoldable pub payload_v2 : Json → Json
payload_v2 (obj request) = obj (without "context" request)
payload_v2 value = value

module _ (env : Env) where
  -- the digest of the text, if there is a text: `JSON.stringify(undefined)` is undefined
  unfoldable pub digest_of : Json → Option String
  digest_of value =
      option_elim (env.stringify (stable_value env.locale_compare value)) none
        (λ text. some (env.sha256_hex text))

  -- the hash of no text throws a TypeError
  unfoldable pub fingerprint : Json → Method String
  fingerprint value = branch (digest_of value) (throw runtime_error 500) pure

  unfoldable pub idempotency_fingerprint_v1 : Json → Method String
  unfolding payload_v1
  idempotency_fingerprint_v1 value = fingerprint (payload_v1 value)

  unfoldable pub idempotency_fingerprint_v2 : Json → Method String
  unfolding payload_v2
  idempotency_fingerprint_v2 value = fingerprint (payload_v2 value)
