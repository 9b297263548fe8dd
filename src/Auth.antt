-- ===== src/Auth.antt =====
-- The roles of apps/api/app/auth/principal.py and the guards of apps/api/app/auth/dependencies.py. The
-- token that a principal comes from is checked before, by code that is not modelled.
use plantlens.Prelude.{String, Bool, true, false, Option, ◌||◌, not, if◌then◌else◌}

pub data Role : Type 0 where
  viewer engineer operator maintenance admin agent : Role

pub data ActorType : Type 0 where
  user agent system : ActorType

pub record Principal : Type 0 where
  pub subject : String
  pub role : Role
  pub actor_type : ActorType
  pub display_name : Option String

-- role in HUMAN_APPROVER_ROLES
abbrev pub human_approver_role : Role → Bool
human_approver_role Role.viewer = false
human_approver_role Role.agent = false
human_approver_role _ = true

abbrev pub agent_role : Role → Bool
agent_role Role.agent = true
agent_role _ = false

abbrev pub agent_actor : ActorType → Bool
agent_actor ActorType.agent = true
agent_actor _ = false

-- is_agent
abbrev pub is_agent : Principal → Bool
is_agent p = agent_role p.role || agent_actor p.actor_type

pub data Guard : Type 0 where
  passed agent_refused role_refused : Guard

-- require_human_approver
unfoldable pub require_human_approver : Principal → Guard
require_human_approver p =
    if is_agent p
    then agent_refused
    else if not (human_approver_role p.role)
    then role_refused
    else passed
