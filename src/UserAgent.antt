-- ===== src/UserAgent.antt =====
-- conjure-runtime/src/user_agent.rs: the value of the header `User-Agent`, and service/user_agent.rs and
-- service/error_parameter_format.rs, which set headers of a request.
--
-- The regular expressions are parameters: what they match. `none` is a failed assertion.
use conjure_rust_runtime.Prelude.{
  ℕ, Bool, true, false, Option, none, some, List, [], ◌∷◌, ◌++◌, map, if◌then◌else◌,
}
use conjure_rust_runtime.Config.{Text, ErrorParameterFormat, legacy, json}
pub mod Distinct
mod Examples

pub record Agent : Type 0 where
  pub name : Text
  pub version : Text

pub record UserAgent : Type 0 where
  pub node_id : Option Text
  pub primary : Agent
  pub informational : List Agent

-- `0.0.0`.
abbrev pub default_version : Text
default_version = 48 ∷ 46 ∷ 48 ∷ 46 ∷ 48 ∷ []

-- What `VALID_NODE`, `VALID_NAME` and `VALID_VERSION` match.
pub record Valid : Type 0 where
  pub node : Text → Bool
  pub name : Text → Bool
  pub version : Text → Bool

module _ (valid : Valid) where
  unfoldable pub new_agent : Text → Text → Option Agent
  new_agent name version =
      if valid.name name
      then some (record {
        name = name;
        version = if valid.version version then version else default_version;
      })
      else none

  unfoldable pub set_node_id : UserAgent → Text → Option UserAgent
  set_node_id u id = if valid.node id then some (record u { node_id = some id }) else none

unfoldable pub new : Agent → UserAgent
new primary = record { node_id = none; primary = primary; informational = [] }

abbrev pub push_agent : UserAgent → Agent → UserAgent
push_agent u a = record u { informational = u.informational ++ a ∷ [] }

abbrev pub slash : ℕ
slash = 47

abbrev pub space : ℕ
space = 32

-- ` (nodeId:` and `)`.
abbrev pub node_prefix : Text
node_prefix = 32 ∷ 40 ∷ 110 ∷ 111 ∷ 100 ∷ 101 ∷ 73 ∷ 100 ∷ 58 ∷ []

abbrev pub node_suffix : Text
node_suffix = 41 ∷ []

-- `Display` of the two.
abbrev pub fmt_agent : Agent → Text
fmt_agent a = a.name ++ slash ∷ a.version

abbrev pub fmt_node : Option Text → Text
fmt_node none = []
fmt_node (some id) = node_prefix ++ (id ++ node_suffix)

abbrev pub fmt_agents : List Agent → Text
fmt_agents [] = []
fmt_agents (a ∷ agents) = space ∷ (fmt_agent a ++ fmt_agents agents)

unfoldable pub fmt : UserAgent → Text
fmt u = fmt_agent u.primary ++ (fmt_node u.node_id ++ fmt_agents u.informational)

-- `UserAgentService::call`: the agents of the service and of this library are added. `runtime` and its version are
-- constants of the build.
abbrev pub push_agents : UserAgent → Option Agent → Option Agent → Option UserAgent
push_agents u none b = none
push_agents u (some a) none = none
push_agents u (some a) (some b) = some (push_agent (push_agent u a) b)

abbrev pub version_or_default : Option Text → Text
version_or_default none = default_version
version_or_default (some v) = v

unfoldable pub extend : Valid → Text → Text → UserAgent → Text → Option Text → Option UserAgent
extend valid runtime runtime_version u service version =
    push_agents u (new_agent valid service (version_or_default version))
      (new_agent valid runtime runtime_version)

-- The header for error parameters, which a request may have.
abbrev pub header_value : Text → ErrorParameterFormat → Option Text
header_value json_value legacy = none
header_value json_value json = some json_value

unfoldable pub error_parameter_format : Option Text → Option Text → Option Text
error_parameter_format none header = header
error_parameter_format (some value) none = some value
error_parameter_format (some value) (some v) = some v
