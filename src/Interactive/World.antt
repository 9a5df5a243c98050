-- ===== src/Interactive/World.antt =====
-- The state that the interactive service (lib/interactive/service.ts) works on, and its errors. A text that a
-- user wrote is the list of its UTF-16 units; identifiers are compared for equality alone. The metadata of an
-- event, which is JSON, is left out.
use Prim.Native.Char.{code}
use extension_lab.Common.{Bool, List, Option, String, [], none, some, ℕ, ◌+◌, ◌∷◌}
use extension_lab.Billing.Entitlements.{BillingDb}
use extension_lab.Jobs.Row.{JobsDb}
use extension_lab.Sessions.Events.{EventRow, SessionEventInput, append_session_event}
use extension_lab.Sessions.Row.{SessionRow}

-- The units of a message that the code spells out, which is ASCII.
unfoldable pub codes : String → List ℕ
codes String.[] = []
codes (String.◌∷◌ c s) = code c ∷ codes s

-- The columns of `extension_packages` that a session is bound to.
pub record PackageRow : Type 0 where
  pub id : ℕ
  pub user_id : ℕ
  pub organization_id : Option ℕ
  pub extension_id : Option ℕ
  pub version : Option String
  pub sha256 : String
  pub is_stored : Bool

-- The tables, the sessions whose container the driver was asked to remove, and the counter that fresh
-- identifiers are taken from.
pub record World : Type 0 where
  pub sessions : List SessionRow
  pub events : List EventRow
  pub billing : BillingDb
  pub jobs : JobsDb
  pub packages : List PackageRow
  pub removed : List ℕ
  pub next_id : ℕ

pub data AppError : Type 0 where
  browser_unavailable browser_session_not_found unsafe_url invalid_input : AppError
  quota_exceeded payment_required session_not_ready conflict : AppError
  browser_session_expired : AppError

pub data Result {ℓ} (A : Type ℓ) : Type ℓ where
  ok : A → Result A
  thrown : AppError → Result A

abbrev pub event_input : String → String → String → SessionEventInput
event_input type level message = record {
  type = type;
  level = some level;
  message = codes message;
  metadata = none;
}

-- appendSessionEvent with the next identifier.
unfoldable pub log_event : ℕ → ℕ → SessionEventInput → World → World
log_event now session input w = record w {
  events = (append_session_event now w.next_id session input w.sessions w.events).0;
  next_id = w.next_id + 1;
}

unfoldable pub log_events : ℕ → ℕ → List SessionEventInput → World → World
log_events now session [] w = w
log_events now session (i ∷ is) w = log_events now session is (log_event now session i w)
