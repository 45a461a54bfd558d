-- ===== src/Window/Listener.antt =====
-- The choice of handlers in `main` of cagent/src/cagent_api/zulip_window.py, and the log-only ones. What is logged
-- is a list of lines; `repr` is Python's, and the serving of a topic and of a mention is an argument.
use pj_clusterintent.Prelude.{
  ℕ, String, Bool, false, Option, none, some, List, [], ◌∷◌, if◌then◌else◌, str_eq,
}
use pj_clusterintent.Prelude.Dashes.{first_chars}
use pj_clusterintent.Prelude.Digits.{in_base}
use pj_clusterintent.Incident.{joined}
use pj_clusterintent.Window.{DirectMessage}
use pj_clusterintent.Window.Reply.{Outside, Sent, react}

-- What the handlers do to the world outside: nothing but a line in the log, or what a serving does.
pub data Deed : Type 0 where
  logged : String → Deed
  answered : Option Sent → Deed
  served : (channel topic : String) → Deed
  argued : (channel topic : String) → Deed

pub record Handlers : Type 0 where
  pub on_dm : Outside → (partners : List ℕ) → DirectMessage → (self_id : ℕ) → Deed
  pub on_topic : (channel topic : String) → Deed
  pub on_mention : Option ((channel topic : String) → Deed)

abbrev pub is_one : Option String → Bool
is_one none = false
is_one (some s) = str_eq s "1"

module _ (repr : String → String) (none_repr : String) where
  abbrev pub repr_of : Option String → String
  repr_of none = none_repr
  repr_of (some s) = repr s

  unfoldable pub log_only : DirectMessage → String
  unfolding first_chars
  log_only m = joined (
      "DM #"
      ∷ in_base 10 m.id
      ∷ " from "
      ∷ repr_of m.sender_full_name
      ∷ " (id="
      ∷ in_base 10 m.sender_id
      ∷ "): "
      ∷ repr (first_chars 200 m.content)
      ∷ [])

  unfoldable pub observe_topic : (channel topic : String) → String
  observe_topic channel topic =
      joined ("observed sweep match " ∷ repr channel ∷ "/" ∷ repr topic ∷ [])

  -- `setting` is CAGENT_ZULIP_LOG_ONLY.
  unfoldable pub handlers : (fuel timeout_seconds : ℕ) → (setting : Option String) → Handlers
  unfolding log_only observe_topic
  handlers fuel timeout_seconds setting =
      if is_one setting
      then record {
        on_dm = λ outside partners m self_id. Deed.logged (log_only m);
        on_topic = λ channel topic. Deed.logged (observe_topic channel topic);
        on_mention = none;
      }
      else record {
        on_dm = λ outside partners m self_id.
            Deed.answered (react fuel timeout_seconds outside partners m self_id);
        on_topic = λ channel topic. Deed.served channel topic;
        on_mention = some (λ channel topic. Deed.argued channel topic);
      }
