-- ===== src/Growth.antt =====
-- services/bazos-service/src/ui/growth-attribution.ts and growth-attribution.service.ts: the event
-- that a visitor clicked through to the hosted sign-in, with the anonymous session that the cookie
-- or the query names. `decodeURIComponent`, the clock, the event's identifier and the reply of
-- growth-core are arguments; `none` of the decoder is an exception.
pub mod Cookies
mod Tests
use bazos.Base.{
  ℕ, Option, none, some, List, [], ◌∷◌, Bool, true, false, if◌then◌else◌, String, ◌==◌, nat_eq,
  codes_eq, split, cut, codes, trim, leb,
}

pub data GsidSource : Type 0 where
  cookie : GsidSource
  query : GsidSource

pub record GsidPick : Type 0 where
  pub gsid : List ℕ
  pub gsid_source : GsidSource

abbrev pub nonempty : List ℕ → Option (List ℕ)
nonempty [] = none
nonempty (c ∷ cs) = some (c ∷ cs)

module _ (decode : List ℕ → Option (List ℕ)) where
  abbrev pub or_raw : List ℕ → Option (List ℕ) → Option (List ℕ)
  or_raw raw none = some raw
  or_raw raw (some value) = nonempty value

  -- What is returned for the text after the `=`.
  unfoldable pub cookie_value : List ℕ → Option (List ℕ)
  cookie_value [] = none
  cookie_value (c ∷ cs) = or_raw (c ∷ cs) (decode (c ∷ cs))

  abbrev pub read_part : List ℕ → Option (List ℕ × List ℕ) → Option (List ℕ) → Option (List ℕ)
  read_part name none rest = rest
  read_part name (some (key, value)) rest =
      if trim key == name then cookie_value (trim value) else rest

  unfoldable pub read_parts : List ℕ → List (List ℕ) → Option (List ℕ)
  unfolding trim cut cookie_value
  read_parts name [] = none
  read_parts name (part ∷ parts) =
      let rest = read_parts name parts in read_part name (cut b'=' part) rest

  unfoldable pub read_cookie : Option (List ℕ) → List ℕ → Option (List ℕ)
  unfolding split read_parts
  read_cookie none name = none
  read_cookie (some []) name = none
  read_cookie (some (c ∷ cs)) name = read_parts name (split b';' (c ∷ cs))

  abbrev pick_query : Option (List ℕ) → Option GsidPick
  pick_query none = none
  pick_query (some text) = pick (trim text)
    where
      pick : List ℕ → Option GsidPick
      pick [] = none
      pick (c ∷ cs) = some (record { gsid = c ∷ cs; gsid_source = query })

  abbrev pub pick_from : Option (List ℕ) → Option (List ℕ) → Option GsidPick
  pick_from (some (c ∷ cs)) query_gsid = some (record { gsid = c ∷ cs; gsid_source = cookie })
  pick_from (some []) query_gsid = pick_query query_gsid
  pick_from none query_gsid = pick_query query_gsid

  unfoldable pub pick_gsid : Option (List ℕ) → Option (List ℕ) → Option GsidPick
  unfolding read_cookie trim
  pick_gsid cookie_header query_gsid =
      pick_from (read_cookie cookie_header (codes "gsid")) query_gsid

-- `payload` of the envelope; the other fields of the envelope are constants or copies.
pub record AuthRedirectEnvelope : Type 0 where
  pub event_id : String
  pub event_type_name : String
  pub event_version : ℕ
  pub occurred_at : ℕ
  pub producer : String
  pub workspace_id : String
  pub correlation_id : List ℕ
  pub data_class : String
  pub payload_correlation_id : List ℕ
  pub payload_gsid : Option (List ℕ)
  pub payload_gsid_source : Option GsidSource
  pub initiated_at : ℕ

pub record AuthRedirectInput : Type 0 where
  pub state : Option (List ℕ)
  pub gsid : Option (List ℕ)
  pub gsid_source : Option GsidSource
  pub now : ℕ
  pub event_id : String

abbrev source_if_given : Option (List ℕ) → Option GsidSource → Option GsidSource
source_if_given (some (c ∷ cs)) source = source
source_if_given gsid source = none

abbrev gsid_if_given : Option (List ℕ) → Option (List ℕ)
gsid_if_given none = none
gsid_if_given (some cs) = nonempty cs

abbrev auth_redirect_event : String
auth_redirect_event = "growth.auth_redirect.initiated.v1"

abbrev growth_workspace_id : String
growth_workspace_id = "bazos"

abbrev envelope : AuthRedirectInput → List ℕ → AuthRedirectEnvelope
envelope input correlation_id = record {
  event_id = input.event_id;
  event_type_name = auth_redirect_event;
  event_version = 1;
  occurred_at = input.now;
  producer = "bazos-service";
  workspace_id = growth_workspace_id;
  correlation_id = correlation_id;
  data_class = "anonymous";
  payload_correlation_id = correlation_id;
  payload_gsid = gsid_if_given input.gsid;
  payload_gsid_source = source_if_given input.gsid input.gsid_source;
  initiated_at = input.now;
}

abbrev trimmed_state : Option (List ℕ) → Option (List ℕ)
trimmed_state none = none
trimmed_state (some cs) = nonempty (trim cs)

abbrev envelope_for : AuthRedirectInput → Option (List ℕ) → Option AuthRedirectEnvelope
envelope_for input none = none
envelope_for input (some correlation_id) = some (envelope input correlation_id)

-- `none` is the exception for a missing state.
unfoldable pub build_auth_redirect_envelope : AuthRedirectInput → Option AuthRedirectEnvelope
unfolding trim
build_auth_redirect_envelope input = envelope_for input (trimmed_state input.state)

pub record AuthRedirectRecord : Type 0 where
  pub state : Option (List ℕ)
  pub cookie_header : Option (List ℕ)
  pub query_gsid : Option (List ℕ)

-- The reply of `post`: a status, or an exception.
pub data Posted : Type 0 where
  status : ℕ → Posted
  failed : Posted

-- The bodies that were posted, and whether a warning was logged.
pub record Recorded : Type 0 where
  pub posted : List (List AuthRedirectEnvelope)
  pub warned : Bool

abbrev is_warned : Posted → Bool
is_warned (status n) = leb 300 n
is_warned failed = true

abbrev picked_gsid : Option GsidPick → Option (List ℕ)
picked_gsid none = none
picked_gsid (some p) = some p.gsid

abbrev picked_source : Option GsidPick → Option GsidSource
picked_source none = none
picked_source (some p) = some p.gsid_source

abbrev post_envelope : (List AuthRedirectEnvelope → Posted) → Option AuthRedirectEnvelope → Recorded
post_envelope post none = record { posted = []; warned = true }
post_envelope post (some e) = record { posted = (e ∷ []) ∷ []; warned = is_warned (post (e ∷ [])) }

-- Every path resolves: there is no exception for the caller.
unfoldable pub record_auth_redirect :
    (List ℕ → Option (List ℕ))
    → (List AuthRedirectEnvelope → Posted)
    → ℕ
    → String
    → AuthRedirectRecord
    → Recorded
unfolding pick_gsid build_auth_redirect_envelope
record_auth_redirect decode post now event_id r =
    let picked = pick_gsid decode r.cookie_header r.query_gsid in
    post_envelope post (
      build_auth_redirect_envelope (record {
        state = r.state;
        gsid = picked_gsid picked;
        gsid_source = picked_source picked;
        now = now;
        event_id = event_id;
      }))
