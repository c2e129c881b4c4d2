-- ===== src/Channels/Types.antt =====
-- channels/types.go and the types of channels/channels.go. Adapters and routers are functions; the
-- contexts they take, and what they do outside the program, are not modelled. `A` is Go's `any`, `E`
-- the errors of adapters and routers. `Channel.Converse`, which nothing sets or calls, is left out.
use sibyl.Prelude.{ℕ, String, List, Option, Result}
use sibyl.Prelude.Int.{ℤ}
use sibyl.Prelude.Maps.{GoMap}

pub record Subject : Type 0 where
  pub kind : String
  pub id : String

pub record Evidence : Type 0 where
  pub kind : String
  pub description : String
  pub location : String

pub record Action : Type 0 where
  pub id : String
  pub label : String
  pub style : String

pub record Link : Type 0 where
  pub label : String
  pub url : String

pub record WorkflowRef : Type 0 where
  pub workflow_id : String
  pub run_id : String
  pub trace_url : String

-- A nil map and an empty one are both [] in `metadata`.
pub record Message : Type 0 where
  pub subject : Subject
  pub title : String
  pub body : String
  pub severity : String
  pub evidence : List Evidence
  pub actions : List Action
  pub links : List Link
  pub workflow_ref : WorkflowRef
  pub metadata : GoMap String

pub record Receipt : Type 0 where
  pub channel : String
  pub target : String
  pub native : String
  pub meta : GoMap String

pub record Identity : Type 0 where
  pub canonical : String
  pub display_name : String
  pub email : String
  pub source : String
  pub raw : GoMap String

pub record Verdict (A : Type 0) : Type 0 where
  pub choice : String
  pub actor : Identity
  pub channel : String
  pub recorded : ℕ
  pub raw : GoMap A

-- `timeout` in nanoseconds
pub record AwaitOpts : Type 0 where
  pub timeout : ℤ
  pub options : List String

-- The package's errors, with the values they format.
pub data ChannelError (E : Type 0) : Type 0 where
  timed_out no_target no_receipts all_waiters_failed no_channels router_missing : ChannelError E
  name_required router_nil nil_router_called : ChannelError E
  unknown_channel duplicate_name await_not_supported : String → ChannelError E
  router_failed adapter_failed : E → ChannelError E

pub record Channel (A E : Type 0) : Type 0 where
  pub name : String
  pub notify : Option (String → Message → Result E Receipt)
  pub await : Option (List Receipt → AwaitOpts → Result (ChannelError E) (Verdict A))

-- One line of `PostResult.Errors`, before it is formatted.
pub data PostError (E : Type 0) : Type 0 where
  channel_unknown not_supported : String → PostError E
  post_failed : String → E → PostError E

pub record PostResult (E : Type 0) : Type 0 where
  pub receipts : List Receipt
  pub errors : List (PostError E)

pub record Target : Type 0 where
  pub channel : String
  pub target : String

abbrev pub Router : Type 0 → Type 0
Router E = List String → Message → Result E (List Target)

abbrev pub IdentityResolver : Type 0 → Type 0
IdentityResolver E = String → String → GoMap String → Result E Identity

pub record Dispatcher (A E : Type 0) : Type 0 where
  pub channels : GoMap (Channel A E)
  pub router : Option (Router E)
  pub resolver : IdentityResolver E
