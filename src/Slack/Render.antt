-- ===== src/Slack/Render.antt =====
-- channels/slack/slack.go: DefaultRender and actionReactionHint.
use sibyl.Prelude.{
  String, Bool, true, false, List, [], ◌∷◌, ◌++◌, map, Option, none, some, if◌then◌else◌, is_empty,
  ◌==◌,
}
use sibyl.Prelude.Maps.{GoMap, get}
use sibyl.Prelude.Texts.{joined, join}
use sibyl.Channels.Types.{Message, Evidence, Action, Link}

pub data BlockKind : Type 0 where
  block_header block_section block_context block_actions : BlockKind

pub record Button : Type 0 where
  pub action_id : String
  pub label : String
  pub style : String
  pub url : String

pub record Block : Type 0 where
  pub kind : BlockKind
  pub text : String
  pub elements : List String
  pub buttons : List Button

pub record PostOptions : Type 0 where
  pub text : String
  pub blocks : List Block

abbrev text_block : BlockKind → String → Block
text_block kind text = record { kind = kind; text = text; elements = []; buttons = [] }

abbrev context_block : List String → Block
context_block elements = record {
  kind = block_context;
  text = "";
  elements = elements;
  buttons = [];
}

abbrev or_text : String → String → String
or_text a b = if a == "" then b else a

abbrev emoji_by_action : GoMap String
emoji_by_action = ("accept", ":white_check_mark:") ∷ ("reject", ":x:") ∷ ("snooze", ":zzz:") ∷ []

abbrev with_emoji : String → Option String → String
with_emoji label none = label
with_emoji label (some emoji) = joined emoji (joined " " label)

abbrev action_hint : Action → String
action_hint a = with_emoji (or_text a.label a.id) (get emoji_by_action a.id)

unfoldable pub action_reaction_hint : List Action → String
action_reaction_hint [] = ""
action_reaction_hint (a ∷ actions) =
    joined "React: " (join "  ·  " (action_hint a ∷ map action_hint actions))

abbrev evidence_label : Evidence → String
evidence_label e =
    let label = or_text e.description e.location in
    if e.kind == "" then label else joined e.kind (joined ": " label)

abbrev link_button : Link → Button
link_button l = record { action_id = ""; label = l.label; style = ""; url = l.url }

-- A block, unless there is nothing to show.
abbrev unless : Bool → Block → List Block
unless true b = []
unless false b = b ∷ []

abbrev header_text : Message → String
header_text m =
    if m.severity == "" then m.title else joined "[" (joined m.severity (joined "] " m.title))

abbrev workflow_line : Message → String
workflow_line m =
    let line = joined "Workflow: `" (joined m.workflow_ref.workflow_id "`") in
    if m.workflow_ref.trace_url == ""
    then line
    else joined line (joined " — <" (joined m.workflow_ref.trace_url "|Open in Temporal>"))

unfoldable pub default_render : Message → PostOptions
default_render m = record {
  text = or_text m.title m.body;
  blocks =
      unless (m.title == "") (text_block block_header (header_text m))
      ++ unless (m.body == "") (text_block block_section m.body)
      ++ unless (is_empty m.evidence) (context_block (map evidence_label m.evidence))
      ++ unless (action_reaction_hint m.actions == "")
          (context_block (action_reaction_hint m.actions ∷ []))
      ++ unless (is_empty m.links) (record {
        kind = block_actions;
        text = "";
        elements = [];
        buttons = map link_button m.links;
      })
      ++ unless (m.workflow_ref.workflow_id == "") (context_block (workflow_line m ∷ []));
}
