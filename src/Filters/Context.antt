-- ===== src/Filters/Context.antt =====
-- internal/filters/context.go: what a predicate sees of a message. A pointer that may be nil is an
-- option.
use teleparse.Base.{
  ◌||◌, Bool, List, Option, none, some, ℤ, pos, ◌*ℤ◌, leb_ℤ, wrap_64, String, is_empty,
  if◌then◌else◌,
}

pub record Chat : Type 0 where
  pub id : ℤ
  pub typ : String
  pub title : String
  pub username : String
  pub archived : Bool
  pub protected : Bool
  pub saved : Bool
  pub deleted : Bool

pub record Sender : Type 0 where
  pub present : Bool
  pub id : ℤ
  pub name : String
  pub username : String
  pub phone : String
  pub is_bot : Bool
  pub is_contact : Bool
  pub is_mutual : Bool
  pub is_premium : Bool
  pub is_verified : Bool
  pub is_scam : Bool
  pub is_deleted : Bool

pub record Entity : Type 0 where
  pub kind : String
  pub text : String
  pub data_ : String

pub record Reaction : Type 0 where
  pub emoji : String
  pub count : ℤ

pub record ForwardInfo : Type 0 where
  pub present : Bool
  pub from_id : ℤ
  pub from_name : String
  pub from_username : String
  pub hidden : Bool
  pub date : ℤ

pub record ReplyInfo : Type 0 where
  pub present : Bool
  pub to_msg_id : ℤ

pub record Message : Type 0 where
  pub id : ℤ
  pub out : Bool
  pub date : ℤ
  pub edit_date : ℤ
  pub has_edit : Bool
  pub text : String
  pub caption : String
  pub entities : List Entity
  pub pinned : Bool
  pub silent : Bool
  pub service : Bool
  pub views : ℤ
  pub forwards : ℤ
  pub reactions : List Reaction
  pub total_reactions : ℤ
  pub forward : Option ForwardInfo
  pub reply : Option ReplyInfo
  pub grouped_id : ℤ
  pub mentioned : Bool
  pub spoiler : Bool
  pub ttl_seconds : ℤ

pub record FileInfo : Type 0 where
  pub present : Bool
  pub kind : String
  pub mime : String
  pub name : String
  pub ext : String
  pub size : ℤ
  pub duration : ℤ
  pub width : ℤ
  pub height : ℤ
  pub streamable : Bool
  pub no_sound : Bool
  pub waveform : Bool
  pub sticker_kind : String

pub record Context : Type 0 where
  pub chat : Chat
  pub sender : Sender
  pub message : Message
  pub file : Option FileInfo

unfoldable pub text_or_caption : Context → String
text_or_caption ctx = if is_empty ctx.message.text then ctx.message.caption else ctx.message.text

unfoldable pub pixels : FileInfo → ℤ
pixels f =
    if leb_ℤ f.width (pos 0) || leb_ℤ f.height (pos 0) then pos 0 else wrap_64 (f.width *ℤ f.height)

-- `fileOf` in internal/filters/compile.go
unfoldable pub file_of : Context → Option FileInfo
file_of ctx = elim ctx.file [ none ↦ none | some f ↦ if f.present then some f else none ]
