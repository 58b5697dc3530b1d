-- ===== src/Engine/Tests/Data.antt =====
-- The data of the examples.
use Prim.Native.String.{count}
use text.Mathlib.TextLemmas.{length-append}
use loyalty_interchange_prot.Base.{
  ℕ, zero, suc, String, ◌⧺◌, ◌≡◌, refl, sym, ap, ◌∙◌, true, none, some, [], Ordering, str_eq, arith,
  if◌then◌else◌,
}
use loyalty_interchange_prot.Base.Int.{pos}
use loyalty_interchange_prot.Base.Json.{null}
use loyalty_interchange_prot.Protocol.Primitives.{points, RequestContext, loyalty_id}
use loyalty_interchange_prot.Protocol.Program.{ProgramDefinition}
use loyalty_interchange_prot.Protocol.Messages.{MemberEnrollRequest, ManualRequest, CaptureRequest}
use loyalty_interchange_prot.Protocol.Loyalty.{bonus}
use loyalty_interchange_prot.Engine.State.{Env, cursor_text}

-- a text of n strokes
unfoldable pub marks : ℕ → String
marks zero = ""
marks (suc n) = "|" ⧺ marks n

count-marks : (n : ℕ) → count (marks n) ≡ n
unfolding marks
count-marks zero = refl
count-marks (suc n) =
    let one : count "|" ≡ 1 = refl in
    let joined = length-append "|" (marks n) in let rest = count-marks n in omega arith

pub marks_injective : (n m : ℕ) → marks n ≡ marks m → n ≡ m
marks_injective n m h = sym (count-marks n) ∙ (ap count h ∙ count-marks m)

-- Everything that "late" names is past at time 1000, and nothing else is.
abbrev pub env : Env
env = record {
  now = 1000;
  ids = λ n prefix. marks n;
  date_parse = λ s. if str_eq s "late" then 0 else 1000000;
  to_iso = λ n. "2026";
  local_date = λ zone n. record { year = 2026; month = 1; day = 1 };
  locale_compare = λ a b. Ordering.eq;
  number_text = λ n. "1";
  stringify = λ value. some "text";
  sha256_hex = λ text. text;
  order_matches_schema = λ order. true;
  encode_cursor = λ cursor. cursor.entry_id;
  decode_cursor = λ t. cursor_text (record { query = "text"; entry_id = t });
  is_date_of_2024 = λ month day. true;
  knows_time_zone = λ zone. true;
  catalog_matches_schema = λ program. true;
}

pub distinct : (n m : ℕ) (p q : String) → env.ids n p ≡ env.ids m q → n ≡ m
distinct n m p q h = marks_injective n m h

abbrev pub program : ProgramDefinition
program = record {
  program_id = "p";
  currency = "EUR";
  accounts = none;
  metrics = none;
  tiers = none;
  tier_policy = none;
  point_expiration = none;
  balance_expiration = none;
  earning_policy = none;
  visit_stamp_policy = none;
  wallet_credit_policy = none;
  membership_policy = none;
  earn_rate = record { points = 1; spend_minor_units = 100 };
  evaluation_ttl_seconds = 60;
  reservation_ttl_seconds = 60;
  rewards = [];
  raw = null;
}

abbrev pub context : String → String → RequestContext
context request_id key = record {
  request_id = request_id;
  idempotency_key = key;
  occurred_at = "2026";
  source = record { system = "pos"; instance_id = none };
}

abbrev pub enroll_ann : MemberEnrollRequest
enroll_ann = record {
  context = context "r1" "k1";
  program_id = "p";
  identity = record { type = loyalty_id; value = "ann"; issuer = none };
  member_id = some "m1";
  attributes = none;
  raw = null;
}

abbrev pub give_ann : ManualRequest
give_ann = record {
  context = context "r2" "k2";
  member_id = "m1";
  program_id = "p";
  adjustment_id = "a1";
  unit = some points;
  amount = pos 50;
  classification = bonus;
  reason = "welcome";
  qualifies_for_tier = true;
  expires_at = none;
  raw = null;
}

abbrev pub capture_one : CaptureRequest
capture_one = record {
  context = context "r3" "k3";
  reservation_id = "||";
  order_id = "o1";
  raw = null;
}
