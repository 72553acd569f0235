-- ===== src/Filters/Families.antt =====
-- internal/filters/compile.go, compile_text.go, compile_dates.go, compile_fwd.go, compile_misc.go:
-- the predicates of each family, in the order in which they are appended.
use teleparse.Base.{
  Bool, true, false, not, ◌&&◌, ◌||◌, List, ◌++◌, Option, none, some, ℤ, pos, leb_ℤ, ltb_ℤ, String,
  is_empty, is_nil, same,
}
use teleparse.Filters.Library.{Library}
use teleparse.Filters.Context.{Context, text_or_caption, pixels}
use teleparse.Filters.Options.{TriBool, Options, contains}
use teleparse.Filters.Predicates.{
  NamedPredicate, when, when_regex, agrees, require_file, refuse_file, chat_type_matches,
  has_entity_kind, command_matches, has_url_value, url_entities_match, has_text_matches,
  reactions_match, match_glob, any_glob_matches, lower_all, normalize_handle, normalize_ext,
  normalize_exts, sender_matches, hashtags_match, mentions_match, emoji_only,
}

pub record RegexSet : Type 0 where
  pub chat : Option (String → Bool)
  pub sender_name : Option (String → Bool)
  pub sender_username : Option (String → Bool)
  pub sender_phone : Option (String → Bool)
  pub name : Option (String → Bool)
  pub text : Option (String → Bool)
  pub url : Option (String → Bool)

pub record FileBounds : Type 0 where
  pub min_size : ℤ
  pub max_size : ℤ
  pub min_seconds : ℤ
  pub max_seconds : ℤ

abbrev pub is_mode : String → String → String → Bool
is_mode value a b = same value a || same value b

abbrev pub is_positive : ℤ → Bool
is_positive n = ltb_ℤ (pos 0) n

abbrev pub has_reply : Context → Bool
has_reply ctx = elim ctx.message.reply [ none ↦ false | some r ↦ r.present ]

abbrev pub forward_hidden : Context → Bool
forward_hidden ctx = elim ctx.message.forward [ none ↦ false | some f ↦ f.present && f.hidden ]

-- `forwardPresent(ctx)` and the test of the original date.
abbrev pub forward_date : (ℤ → Bool) → Context → Bool
forward_date test ctx = elim ctx.message.forward [
  | none ↦ false
  | some f ↦ f.present && test f.date
]

abbrev pub tri : TriBool → String → (Context → Bool) → List NamedPredicate
tri t name get = when t.set name (λ ctx. agrees (get ctx) t.value)

unfoldable pub engagement_predicates : Options → List NamedPredicate
engagement_predicates o =
    tri o.is_reply "is_reply" has_reply
    ++ (when (is_positive o.min_views) "min_views" (λ ctx. leb_ℤ o.min_views ctx.message.views)
        ++ (when (is_positive o.min_forwards) "min_forwards"
              (λ ctx. leb_ℤ o.min_forwards ctx.message.forwards)
            ++ (when (is_positive o.min_reactions) "min_reactions"
                  (λ ctx. leb_ℤ o.min_reactions ctx.message.total_reactions)
                ++ (when (not (is_nil o.reaction)) "reaction"
                      (λ ctx. reactions_match o.reaction ctx.message.reactions)
                    ++ tri o.pinned "pinned" (λ ctx. ctx.message.pinned)))))

unfoldable pub misc_predicates : Options → List NamedPredicate
misc_predicates o =
    when (is_positive o.min_id) "min_id" (λ ctx. leb_ℤ o.min_id ctx.message.id)
    ++ (when (is_positive o.max_id) "max_id" (λ ctx. leb_ℤ ctx.message.id o.max_id)
        ++ (when (is_mode o.service "only" "exclude") "service"
              (λ ctx. agrees ctx.message.service (same o.service "only"))
            ++ (tri o.silent "silent" (λ ctx. ctx.message.silent)
                ++ tri o.has_spoiler "has_spoiler" (λ ctx. ctx.message.spoiler))))

unfoldable pub media_predicates : Options → List NamedPredicate
media_predicates o =
    when (not (is_nil o.media)) "media" (require_file (λ f. contains o.media f.kind))
    ++ (when (not (is_nil o.exclude_media)) "exclude_media"
          (refuse_file (λ f. contains o.exclude_media f.kind))
        ++ (when (not (is_nil o.sticker_kind)) "sticker_kind"
              (require_file (λ f. same f.kind "sticker" && contains o.sticker_kind f.sticker_kind))
            ++ (when o.has_media.set "has_media"
                  (λ ctx. agrees (require_file (λ f. true) ctx) o.has_media.value)
                ++ when (same o.in_album "only") "in_album"
                    (λ ctx. is_positive ctx.message.grouped_id))))

module _ (lib : Library) where
  unfoldable pub chat_predicates : Options → RegexSet → List NamedPredicate
  chat_predicates o re =
      when (not (is_nil o.chat_type)) "chat_type" (chat_type_matches o.chat_type)
      ++ (when (not (is_nil o.exclude_chat_type)) "exclude_chat_type"
            (λ ctx. not (chat_type_matches o.exclude_chat_type ctx))
          ++ (tri o.chat_deleted "chat_deleted" (λ ctx. ctx.chat.deleted)
              ++ (when (not (is_empty o.chat_glob)) "chat_glob"
                    (λ ctx. match_glob lib o.chat_glob ctx.chat.title)
                  ++ (when_regex re.chat "chat_regex" (λ matcher ctx. matcher ctx.chat.title)
                      ++ (when (is_mode o.archived "only" "exclude") "archived"
                            (λ ctx. agrees ctx.chat.archived (same o.archived "only"))
                          ++ (when o.saved_only "saved_only" (λ ctx. ctx.chat.saved)
                              ++ (when (not (is_empty o.chat_username)) "chat_username" (λ ctx.
                                    same (normalize_handle lib ctx.chat.username)
                                      (normalize_handle lib o.chat_username))
                                  ++ when o.skip_protected "skip_protected"
                                      (λ ctx. not ctx.chat.protected))))))))

  unfoldable pub sender_predicates : Options → RegexSet → List NamedPredicate
  sender_predicates o re =
      when o.contacts_only "contacts_only" (λ ctx. ctx.sender.is_contact)
      ++ (when o.mutual_only "mutual_only" (λ ctx. ctx.sender.is_mutual)
          ++ (when o.sender_non_contacts "sender_non_contacts"
                (λ ctx. ctx.sender.present && not ctx.sender.is_contact)
              ++ (when o.sender_non_mutual "sender_non_mutual"
                    (λ ctx. ctx.sender.present && not ctx.sender.is_mutual)
                  ++ (tri o.from_me "from_me" (λ ctx. ctx.message.out)
                      ++ (when (not (is_nil o.from_users)) "from_users"
                            (sender_matches lib o.from_users)
                          ++ (when (not (is_nil o.exclude_users)) "exclude_users"
                                (λ ctx. not (sender_matches lib o.exclude_users ctx))
                              ++ (tri o.sender_bot "sender_bot" (λ ctx. ctx.sender.is_bot)
                                  ++ (tri o.sender_premium "sender_premium"
                                        (λ ctx. ctx.sender.is_premium)
                                      ++ (tri o.sender_verified "sender_verified"
                                            (λ ctx. ctx.sender.is_verified)
                                          ++ (tri o.sender_scam "sender_scam"
                                                (λ ctx. ctx.sender.is_scam)
                                              ++ (tri o.sender_deleted "sender_deleted"
                                                    (λ ctx. ctx.sender.is_deleted)
                                                  ++ (when_regex re.sender_name "sender_name_regex"
                                                        (λ matcher ctx. matcher ctx.sender.name)
                                                      ++ (when_regex re.sender_username
                                                            "sender_username_regex"
                                                            (λ matcher ctx. matcher (
                                                            normalize_handle lib
                                                            ctx.sender.username))
                                                          ++ when_regex re.sender_phone
                                                            "sender_phone_regex"
                                                            (λ matcher ctx.
                                                            matcher ctx.sender.phone))))))))))))))

  unfoldable pub file_match_predicates : Options → RegexSet → List NamedPredicate
  file_match_predicates o re =
      when (not (is_nil o.mime)) "mime"
        (require_file (λ f. any_glob_matches lib (lower_all lib o.mime) (lib.to_lower f.mime)))
      ++ (when (not (is_nil o.exclude_mime)) "exclude_mime" (
            refuse_file
              (λ f. any_glob_matches lib (lower_all lib o.exclude_mime) (lib.to_lower f.mime)))
          ++ (when (not (is_nil o.ext)) "ext"
                (require_file (λ f. contains (normalize_exts lib o.ext) (normalize_ext lib f.ext)))
              ++ (when (not (is_nil o.exclude_ext)) "exclude_ext" (
                    refuse_file
                      (λ f. contains (normalize_exts lib o.exclude_ext) (normalize_ext lib f.ext)))
                  ++ (when (not (is_empty o.name_glob)) "name_glob"
                        (require_file (λ f. match_glob lib o.name_glob f.name))
                      ++ when_regex re.name "name_regex"
                          (λ matcher. require_file (λ f. matcher f.name))))))

  unfoldable pub file_bound_predicates : Options → FileBounds → List NamedPredicate
  file_bound_predicates o b =
      when (not (is_empty o.min_size)) "min_size" (require_file (λ f. leb_ℤ b.min_size f.size))
      ++ (when (not (is_empty o.max_size)) "max_size" (require_file (λ f. leb_ℤ f.size b.max_size))
          ++ (when (not (is_empty o.min_duration)) "min_duration"
                (require_file (λ f. leb_ℤ b.min_seconds f.duration))
              ++ (when (not (is_empty o.max_duration)) "max_duration"
                    (require_file (λ f. leb_ℤ f.duration b.max_seconds))
                  ++ (when (is_positive o.min_width) "min_width"
                        (require_file (λ f. leb_ℤ o.min_width f.width))
                      ++ (when (is_positive o.max_width) "max_width"
                            (require_file (λ f. leb_ℤ f.width o.max_width))
                          ++ (when (is_positive o.min_height) "min_height"
                                (require_file (λ f. leb_ℤ o.min_height f.height))
                              ++ (when (is_positive o.max_height) "max_height"
                                    (require_file (λ f. leb_ℤ f.height o.max_height))
                                  ++ (when (lib.float_positive o.min_mp) "min_mp"
                                        (require_file (λ f. lib.reaches (pixels f) o.min_mp))
                                      ++ (when o.streamable.set "streamable" (
                                            require_file
                                              (λ f. agrees f.streamable o.streamable.value))
                                          ++ when o.no_sound.set "no_sound" (
                                              require_file
                                                (λ f. agrees f.no_sound o.no_sound.value)))))))))))

  unfoldable pub text_predicates : Options → RegexSet → List NamedPredicate
  text_predicates o re =
      when_regex re.text "text_regex" (λ matcher ctx. matcher (text_or_caption ctx))
      ++ (when (not (is_empty o.has_text)) "has_text" (has_text_matches o.has_text)
          ++ (when (not (is_nil o.hashtag)) "hashtag"
                (λ ctx. hashtags_match lib o.hashtag ctx.message.entities)
              ++ (when o.any_hashtag "any_hashtag"
                    (λ ctx. has_entity_kind ctx.message.entities "hashtag")
                  ++ (when (not (is_nil o.mention)) "mention"
                        (λ ctx. mentions_match lib o.mention ctx.message.entities)
                      ++ (tri o.was_mentioned "was_mentioned" (λ ctx. ctx.message.mentioned)
                          ++ (tri o.has_url "has_url" has_url_value
                              ++ (when_regex re.url "url_regex"
                                    (λ matcher ctx. url_entities_match matcher ctx.message.entities)
                                  ++ (when o.has_email "has_email"
                                        (λ ctx. has_entity_kind ctx.message.entities "email")
                                      ++ (when o.has_phone "has_phone"
                                            (λ ctx. has_entity_kind ctx.message.entities "phone")
                                          ++ (when (not (is_empty o.command)) "command" (λ ctx.
                                                command_matches o.command ctx.message.entities)
                                              ++ when o.emoji_only "emoji_only"
                                                  (λ ctx. emoji_only lib ctx.message.text)))))))))))
