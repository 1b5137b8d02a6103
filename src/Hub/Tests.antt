-- ===== src/Hub/Tests.antt =====
-- Registrations with a hub that has one agent, `a1` on the host `web`, a revoked agent `a2` on `db`, and
-- one bootstrap token. A token is its own hash.
use homepilot_core_public.Base.{
  ℕ, String, ◌≡◌, ◌⊎◌, refl, true, false, none, some, [], ◌∷◌, arith, ◌<>◌, ◌≢◌,
}
use homepilot_core_public.Base.Int.{pos}
use homepilot_core_public.Base.Dict.{insert, Dict, lookup, NodupKeys}
use homepilot_core_public.Hub.Agents.{AgentRow, rebind_agent_credential}
use homepilot_core_public.Hub.Tokens.{TokenStore, verify, consume}
use homepilot_core_public.Hub.Tokens.Once.{restart, consume_once}
use homepilot_core_public.Hub.Window.{window_status}
use homepilot_core_public.Hub.Replay.{Freshness, check_register_freshness}
use homepilot_core_public.Hub.Replay.Once.{run_checks, register_once}
use homepilot_core_public.Hub.Session.{
  Frame, ReplaySession, verify_frame, receive, send, receive-send, verify_all, verify_frame_once,
}
use homepilot_core_public.Base.Text.{codes}
use homepilot_core_public.Hub.Canon.{
  Members, no_members, member, number, text, ordered_members, without_mac, canonical_bytes,
}
use homepilot_core_public.Hub.Canon.Read.{IsWritten}
use homepilot_core_public.Hub.Canon.Frames.{canonical_bytes-injective}
use homepilot_core_public.Hub.Auth.{
  Repo, Hub, Register, per_agent, shared, window_closed, accepted, denied, host_differs,
  verify_auth,
}
use homepilot_core_public.Hub.Auth.Possession.{accepted_agent}

abbrev same : String → String
same t = t

abbrev web_row : AgentRow
web_row = record {
  hostname = some "web";
  credential_hash = some "web-token";
  credential_set_at = some 1;
  revoked = false;
}

abbrev db_row : AgentRow
db_row = record {
  hostname = some "db";
  credential_hash = some "db-token";
  credential_set_at = some 2;
  revoked = true;
}

abbrev agents : Dict AgentRow
agents = ("a1", web_row) ∷ ("a2", db_row) ∷ []

abbrev store : TokenStore
store = record { tokens = ("once", 100) ∷ []; expiry_seconds = 50; db = some (("once", 100) ∷ []) }

abbrev repo : Repo
repo = record { agents = agents; enrolment_window = none }

abbrev hub : Hub
hub = record { repo = some repo; token_store = store; auth_token = "fleet" }

agents-NodupKeys : NodupKeys agents
unfolding lookup
agents-NodupKeys = (refl, (refl, tt))

-- The agent of `web` comes back under a new id.
abbrev returning : Register
returning = record { auth_token = "web-token"; agent_id = "a9"; hostname = "web" }

abbrev known_host : Register
known_host = record { auth_token = "fleet"; agent_id = "a7"; hostname = "db" }

abbrev revoked_agent : Register
revoked_agent = record { auth_token = "db-token"; agent_id = "a2"; hostname = "db" }

returning-accepted : (verify_auth same 10 hub returning).0 ≡ accepted (per_agent "a9")
unfolding verify_auth lookup window_status
returning-accepted = refl

known_accepted : (verify_auth same 10 hub known_host).0 ≡ accepted shared
unfolding verify_auth lookup window_status
known_accepted = refl

stranger_denied :
    (verify_auth same 10 hub (record known_host { hostname = "new" })).0 ≡ denied window_closed
unfolding verify_auth lookup window_status
stranger_denied = refl

rebinds : (rebind_agent_credential agents "a1" "a9").0 ≡ true
unfolding rebind_agent_credential lookup
rebinds = refl

consumes : (consume same 10 "once" store).0 ≡ true
unfolding consume verify lookup
consumes = refl

accepted_agent_example :
    (◌≡◌ {A = String} "a9" "a9")
    × ((prior : String) × (row : AgentRow) × (lookup prior agents ≡ some row)
        × (row.credential_hash ≡ some "web-token")
        × (row.revoked ≡ false)
        × (((prior ≡ "a9") × (host_differs row.hostname "web" ≡ false))
            ⊎ (row.hostname ≡ some "web")))
accepted_agent_example =
    accepted_agent same 10 hub returning repo "a9" agents-NodupKeys refl returning-accepted

db_found : lookup "a2" agents ≡ some db_row
unfolding lookup
db_found = refl

consume_once_example :
    ((consume same 12 "once" (consume same 10 "once" store).1).0 ≡ false)
    × ((consume same 12 "once" (restart 11 (consume same 10 "once" store).1)).0 ≡ false)
consume_once_example = consume_once same "once" 10 store consumes 12 11

abbrev long_nonce : String
long_nonce = "0123456789abcdef0123456789abcdef"

abbrev register : Freshness
register = record { nonce = some long_nonce; ts = some (pos 1000) }

register_accepted : (check_register_freshness "a1" register 1000000001 []).0 ≡ none
unfolding check_register_freshness lookup insert
register_accepted = refl

register_once_example :
    (check_register_freshness "a1" register 1200000000
      (run_checks [] (check_register_freshness "a1" register 1000000001 []).1)).0
    ≢ none
register_once_example =
    register_once "a1" register (pos 1000) 1000000001 [] refl (omega arith) register_accepted []
      1200000000 tt

-- With a time stamp that lies ahead, the nonce expires while the stamp still counts as fresh.
abbrev ahead : Freshness
ahead = record { nonce = some long_nonce; ts = some (pos 1200) }

ahead_accepted_twice :
    (check_register_freshness "a1" ahead 1400000000
      (check_register_freshness "a1" ahead 1000000000 []).1).0
    ≡ none
unfolding check_register_freshness lookup insert
ahead_accepted_twice = refl

abbrev no_mac : String → String → ℕ → String
no_mac key content seq = key <> content

abbrev session : ReplaySession
session = record { key = "k"; send_seq = 0; recv_expected = 1 }

receive-send_example :
    receive no_mac (send no_mac ("x" ∷ "y" ∷ []) session) session ≡ "x" ∷ "y" ∷ []
receive-send_example = receive-send no_mac ("x" ∷ "y" ∷ []) session session refl refl

abbrev first_frame : Frame
first_frame = record { content = "x"; seq = some 1; mac = some "kx" }

first_passes : (verify_frame no_mac first_frame session).0 ≡ true
unfolding verify_frame
first_passes = refl

verify_frame_once_example :
    (verify_frame no_mac first_frame
      (verify_all no_mac [] (verify_frame no_mac first_frame session).1)).0
    ≡ false
verify_frame_once_example = verify_frame_once no_mac first_frame session [] first_passes

abbrev frame : Members
frame = member (codes "b") (text (codes "x\"")) (member (codes "a") (number (codes "1")) no_members)

abbrev frame_back : Members
frame_back =
    member (codes "mac") (text (codes "00"))
      (member (codes "a") (number (codes "1")) (member (codes "b") (text (codes "x\"")) no_members))

frame_text : canonical_bytes frame ≡ codes "{\"a\":1,\"b\":\"x\\\"\"}"
unfolding canonical_bytes
frame_text = refl

same_fields : canonical_bytes frame ≡ canonical_bytes frame_back
unfolding canonical_bytes
same_fields = refl

canonical_bytes-injective_example :
    ordered_members (without_mac frame) ≡ ordered_members (without_mac frame_back)
unfolding IsWritten
canonical_bytes-injective_example =
    canonical_bytes-injective frame frame_back (tt, ((refl, tt), tt)) (tt, ((refl, tt), (tt, tt)))
      same_fields
