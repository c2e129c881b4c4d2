-- ===== src/Channels/Setup.antt =====
-- channels/channels.go: New and its options, the routers, and PassthroughResolver.
use sibyl.Prelude.{
  String, List, [], ◌∷◌, ◌++◌, Option, none, some, Result, ok, err, ◌>>=◌, ◌>>◌, fail_if, ◌==◌,
  is_empty,
}
use sibyl.Prelude.Maps.{GoMap, get, put, get_or}
use sibyl.Prelude.Texts.{joined}
use sibyl.Channels.Types.{
  ChannelError, name_required, router_nil, duplicate_name, no_channels, router_missing, Channel,
  Target, Router, IdentityResolver, Dispatcher,
}

unfoldable pub passthrough_resolver : {E : Type 0} → IdentityResolver E
passthrough_resolver channel native raw = ok (record {
  canonical = joined channel (joined ":" native);
  display_name = get_or raw "display_name" "";
  email = get_or raw "email" "";
  source = "passthrough";
  raw = raw;
})

abbrev pub fixed_router : {E : Type 0} → String → String → Router E
fixed_router channel target names msg = ok (record { channel = channel; target = target } ∷ [])

abbrev pub route_to : String → Option String → List Target
route_to channel none = []
route_to channel (some target) = record { channel = channel; target = target } ∷ []

abbrev pub severity_router : {E : Type 0} → String → GoMap String → Router E
severity_router channel by_level names msg = ok (route_to channel (get by_level msg.severity))

unfoldable pub multi_router : {E : Type 0} → List (Router E) → Router E
multi_router [] names msg = ok []
multi_router (r ∷ rs) names msg = do
  ts ← r names msg
  more ← multi_router rs names msg
  ok (ts ++ more)

-- `Option` of the package.
abbrev pub ConfigOption : Type 0 → Type 0 → Type 0
ConfigOption A E = Dispatcher A E → Result (ChannelError E) (Dispatcher A E)

module _ {A E : Type 0} where
  abbrev add_new :
      Channel A E → Dispatcher A E → Option (Channel A E) → Result (ChannelError E) (Dispatcher A E)
  add_new c d none = ok (record d { channels = put d.channels c.name c })
  add_new c d (some known) = err (duplicate_name c.name)

  unfoldable pub with_channel : Channel A E → ConfigOption A E
  with_channel c d = do fail_if (c.name == "") name_required; add_new c d (get d.channels c.name)

  abbrev pub with_router : Option (Router E) → ConfigOption A E
  with_router none d = err router_nil
  with_router (some r) d = ok (record d { router = some r })

  abbrev pub with_identity_resolver : IdentityResolver E → ConfigOption A E
  with_identity_resolver r d = ok (record d { resolver = r })

  unfoldable pub apply_options :
      List (ConfigOption A E) → Dispatcher A E → Result (ChannelError E) (Dispatcher A E)
  apply_options [] d = ok d
  apply_options (o ∷ os) d = do next ← o d; apply_options os next

  abbrev blank_dispatcher : Dispatcher A E
  blank_dispatcher = record { channels = []; router = none; resolver = passthrough_resolver }

  abbrev has_router : Dispatcher A E → Option (Router E) → Result (ChannelError E) (Dispatcher A E)
  has_router d none = err router_missing
  has_router d (some r) = ok d

  unfoldable pub new_dispatcher : List (ConfigOption A E) → Result (ChannelError E) (Dispatcher A E)
  new_dispatcher opts = do
    d ← apply_options opts blank_dispatcher
    fail_if (is_empty d.channels) no_channels
    has_router d d.router
