-- ===== src/Filters/Compile/Exclusion.antt =====
-- What an exclusion option refuses is refused, whatever the other options accept.
use teleparse.Base.{
  ◌≡◌, refl, Bool, true, false, ◌||◌, List, [], ◌∷◌, none, some, is_nil, any, map, Option-cases,
  Bool-cases, inl, inr, arith,
}
use teleparse.Base.Results.{ok}
use teleparse.Filters.Library.{Library}
use teleparse.Filters.Context.{Context, FileInfo, file_of}
use teleparse.Filters.Options.{Options, contains}
use teleparse.Filters.Predicates.{
  chat_type_matches, sender_matches, any_glob_matches, lower_all, normalize_ext, normalize_exts,
}
use teleparse.Filters.Families.{
  RegexSet, media_predicates, chat_predicates, sender_predicates, file_match_predicates,
}
use teleparse.Filters.Compile.{Plan, all_pass, matches, compile}
use teleparse.Filters.Compile.Plans.{
  all_pass-append, all_pass-when, matches-Passes, compile-Compiled,
}

any-is_nil : {A : Type 0} (p : A → Bool) (xs : List A) → any p xs ≡ true → is_nil xs ≡ false
any-is_nil p [] e = cc
any-is_nil p (x ∷ xs) e = refl

any-map :
    {A B : Type 0} (p : B → Bool) (g : A → B) (xs : List A)
    → any p (map g xs) ≡ true
    → is_nil xs ≡ false
any-map p g [] e = cc
any-map p g (x ∷ xs) e = refl

module _ (lib : Library) where
  -- The file's kind, MIME type or extension is on the list of those to skip.
  abbrev pub is_excluded_file : Options → FileInfo → Bool
  is_excluded_file o f =
      contains o.exclude_media f.kind
      || any_glob_matches lib (lower_all lib o.exclude_mime) (lib.to_lower f.mime)
      || contains (normalize_exts lib o.exclude_ext) (normalize_ext lib f.ext)

  -- The chat's type, the sender or the file is on a list of those to skip.
  unfoldable pub is_excluded : Options → Context → Bool
  is_excluded o ctx =
      chat_type_matches o.exclude_chat_type ctx
      || sender_matches lib o.exclude_users ctx
      || elim (file_of ctx) [ none ↦ false | some f ↦ is_excluded_file o f ]

  chat_refuses :
      (o : Options) (re : RegexSet) (ctx : Context)
      → all_pass (chat_predicates lib o re) ctx ≡ true
      → chat_type_matches o.exclude_chat_type ctx ≡ false
  unfolding chat_predicates chat_type_matches
  chat_refuses o re ctx e = elim (Bool-cases (chat_type_matches o.exclude_chat_type ctx)) [
    | inr h ↦ h
    | inl h ↦
        let on : is_nil o.exclude_chat_type ≡ false = any-is_nil _ o.exclude_chat_type h in
        ground (arith, h, on, simp (all_pass-append, all_pass-when, on) at e)
  ]

  sender_refuses :
      (o : Options) (re : RegexSet) (ctx : Context)
      → all_pass (sender_predicates lib o re) ctx ≡ true
      → sender_matches lib o.exclude_users ctx ≡ false
  unfolding sender_predicates sender_matches
  sender_refuses o re ctx e = elim (Bool-cases (sender_matches lib o.exclude_users ctx)) [
    | inr h ↦ h
    | inl h ↦
        let on : is_nil o.exclude_users ≡ false = any-is_nil _ o.exclude_users h in
        ground (arith, h, on, simp (all_pass-append, all_pass-when, on) at e)
  ]

  media_refuses :
      (o : Options) (ctx : Context) (f : FileInfo)
      → all_pass (media_predicates o) ctx ≡ true
      → file_of ctx ≡ some f
      → contains o.exclude_media f.kind ≡ false
  unfolding media_predicates contains
  media_refuses o ctx f e k = elim (Bool-cases (contains o.exclude_media f.kind)) [
    | inr h ↦ h
    | inl h ↦
        let on : is_nil o.exclude_media ≡ false = any-is_nil _ o.exclude_media h in
        ground (arith, h, on, k, simp (all_pass-append, all_pass-when, on) at e)
  ]

  mime_refuses :
      (o : Options) (re : RegexSet) (ctx : Context) (f : FileInfo)
      → all_pass (file_match_predicates lib o re) ctx ≡ true
      → file_of ctx ≡ some f
      → any_glob_matches lib (lower_all lib o.exclude_mime) (lib.to_lower f.mime) ≡ false
  unfolding file_match_predicates any_glob_matches
  mime_refuses o re ctx f e k =
      elim (Bool-cases
        (any_glob_matches lib (lower_all lib o.exclude_mime) (lib.to_lower f.mime))) [
          | inr h ↦ h
          | inl h ↦
              let on : is_nil o.exclude_mime ≡ false = any-map _ _ o.exclude_mime h in
              ground (arith, h, on, k, simp (all_pass-append, all_pass-when, on) at e)
        ]

  ext_refuses :
      (o : Options) (re : RegexSet) (ctx : Context) (f : FileInfo)
      → all_pass (file_match_predicates lib o re) ctx ≡ true
      → file_of ctx ≡ some f
      → contains (normalize_exts lib o.exclude_ext) (normalize_ext lib f.ext) ≡ false
  unfolding file_match_predicates contains
  ext_refuses o re ctx f e k =
      elim (Bool-cases (contains (normalize_exts lib o.exclude_ext) (normalize_ext lib f.ext))) [
        | inr h ↦ h
        | inl h ↦
            let on : is_nil o.exclude_ext ≡ false = any-map _ _ o.exclude_ext h in
            ground (arith, h, on, k, simp (all_pass-append, all_pass-when, on) at e)
      ]

  no_exclusion :
      (o : Options) (re : RegexSet) (ctx : Context)
      → all_pass (chat_predicates lib o re) ctx ≡ true
      → all_pass (sender_predicates lib o re) ctx ≡ true
      → all_pass (media_predicates o) ctx ≡ true
      → all_pass (file_match_predicates lib o re) ctx ≡ true
      → is_excluded o ctx ≡ false
  unfolding is_excluded
  no_exclusion o re ctx chat sender media files = elim (Option-cases (file_of ctx)) [
    | inl k ↦ ground (arith, k, chat_refuses o re ctx chat, sender_refuses o re ctx sender)
    | inr (f, k) ↦ ground (
      arith,
      k,
      chat_refuses o re ctx chat,
      sender_refuses o re ctx sender,
      media_refuses o ctx f media k,
      mime_refuses o re ctx f files k,
      ext_refuses o re ctx f files k,
    )
  ]

  -- A message whose chat type, sender or file is on an exclusion list never matches a compiled plan,
  -- whatever the other options ask for.
  pub matches_excluded :
      (o : Options) (plan : Plan) (ctx : Context)
      → compile lib o ≡ ok plan
      → is_excluded o ctx ≡ true
      → matches plan ctx ≡ false
  matches_excluded o plan ctx made h = elim (Bool-cases (matches plan ctx)) [
    | inr m ↦ m
    | inl m ↦
        let c = compile-Compiled lib o plan made in
        let p = matches-Passes lib o plan ctx c m in
        cc (h, no_exclusion o c.re ctx p.chat p.sender p.media p.files)
  ]
