-- ===== src/Channels/Post.antt =====
-- `Dispatcher.Notify` of channels/channels.go.
use sibyl.Prelude.{
  String, List, [], ◌∷◌, ◌++◌, Option, none, some, Result, ok, err, ◌>>=◌, ◌>>◌, fail_if, map_err,
  is_empty,
}
use sibyl.Prelude.Maps.{GoMap, get, keys}
use sibyl.Channels.Types.{
  Message, Receipt, ChannelError, no_target, nil_router_called, router_failed, Channel, PostError,
  channel_unknown, not_supported, post_failed, PostResult, Target, Router, Dispatcher,
}

module _ {E : Type 0} where
  abbrev pub refused : PostResult E → PostError E → PostResult E
  refused r e = record r { errors = r.errors ++ e ∷ [] }

  abbrev pub posted : Target → Result E Receipt → PostResult E → PostResult E
  posted t (err e) r = refused r (post_failed t.channel e)
  posted t (ok receipt) r = record r { receipts = r.receipts ++ receipt ∷ [] }

  abbrev pub post_with :
      Message → Target → Option (String → Message → Result E Receipt) → PostResult E → PostResult E
  post_with msg t none r = refused r (not_supported t.channel)
  post_with msg t (some notify) r = posted t (notify t.target msg) r

module _ {A E : Type 0} where
  abbrev pub post_on : Message → Target → Option (Channel A E) → PostResult E → PostResult E
  post_on msg t none r = refused r (channel_unknown t.channel)
  post_on msg t (some ch) r = post_with msg t ch.notify r

  unfoldable pub post_all :
      GoMap (Channel A E) → Message → List Target → PostResult E → PostResult E
  post_all channels msg [] r = r
  post_all channels msg (t ∷ ts) r =
      post_all channels msg ts (post_on msg t (get channels t.channel) r)

  -- `channelNames` in one of the orders of Go's iteration.
  abbrev pub channel_names : Dispatcher A E → List String
  channel_names d = keys d.channels

  abbrev pub route :
      Dispatcher A E → Message → Option (Router E) → Result (ChannelError E) (List Target)
  route d msg none = err nil_router_called
  route d msg (some router) = map_err router_failed (router (channel_names d) msg)

  unfoldable pub notify : Dispatcher A E → Message → Result (ChannelError E) (PostResult E)
  notify d msg = do
    targets ← route d msg d.router
    fail_if (is_empty targets) no_target
    ok (post_all d.channels msg targets (record { receipts = []; errors = [] }))
