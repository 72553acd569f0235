-- ===== src/Filters/Compile/Plans.antt =====
-- What `Compile` puts in a plan: the predicates of every family, with the values that it parsed.
use teleparse.Base.{
  ◌≡◌, refl, ap, sym, ◌∙◌, Bool, true, false, ◌&&◌, List, [], ◌∷◌, ◌++◌, if◌then◌else◌, arith,
}
use teleparse.Base.Results.{ok, bind_ok}
use teleparse.Filters.Library.{Library}
use teleparse.Filters.Context.{Context}
use teleparse.Filters.Options.{Options}
use teleparse.Filters.Validate.{validate}
use teleparse.Filters.Predicates.{NamedPredicate, when}
use teleparse.Filters.Families.{
  RegexSet, FileBounds, engagement_predicates, misc_predicates, media_predicates, chat_predicates,
  sender_predicates, file_match_predicates, file_bound_predicates, text_predicates,
}
use teleparse.Filters.Compile.{
  Plan, all_pass, matches, derive_pushdown, validate_compile_extras, compile_regexes,
  parse_file_bounds, file_predicates, date_predicates, forward_predicates, compile,
}

pub all_pass-append :
    (ps qs : List NamedPredicate) (ctx : Context)
    → all_pass (ps ++ qs) ctx ≡ (all_pass ps ctx && all_pass qs ctx)
unfolding all_pass
all_pass-append [] qs ctx = refl
all_pass-append (p ∷ ps) qs ctx = ground (arith, all_pass-append ps qs ctx)

pub all_pass-when :
    (on : Bool) (name : _) (fn : Context → Bool) (ctx : Context)
    → all_pass (when on name fn) ctx ≡ (if on then fn ctx else true)
unfolding all_pass
all_pass-when true name fn ctx = ground arith
all_pass-when false name fn ctx = refl

module _ (lib : Library) where
  -- The parts of a compiled plan.
  pub record Compiled (o : Options) (plan : Plan) : Type 0 where
    pub re : RegexSet
    pub bounds : FileBounds
    pub dates : List NamedPredicate
    pub forwards : List NamedPredicate
    pub pushed : derive_pushdown lib o ≡ ok plan.pushdown
    pub regexes : compile_regexes lib o ≡ ok re
    pub parsed : parse_file_bounds lib o ≡ ok bounds
    pub dated : date_predicates lib o ≡ ok dates
    pub forwarded : forward_predicates lib o ≡ ok forwards
    pub listed :
        plan.predicates
        ≡ chat_predicates lib o re
          ++ (sender_predicates lib o re
              ++ (media_predicates o
                  ++ ((file_match_predicates lib o re ++ file_bound_predicates lib o bounds)
                      ++ (text_predicates lib o re
                          ++ (dates
                              ++ (forwards ++ (engagement_predicates o ++ misc_predicates o)))))))

  file_predicates_ok :
      (o : Options) (re : RegexSet) (files : List NamedPredicate)
      → file_predicates lib o re ≡ ok files
      → (b : FileBounds) × (parse_file_bounds lib o ≡ ok b)
        × (files ≡ file_match_predicates lib o re ++ file_bound_predicates lib o b)
  unfolding file_predicates
  file_predicates_ok o re files e =
      let (b, p, q) = bind_ok (parse_file_bounds lib o) _ files e in (b, p, cc q)

  pub compile-Compiled : (o : Options) (plan : Plan) → compile lib o ≡ ok plan → Compiled o plan
  unfolding compile
  compile-Compiled o plan e =
      let (_, _, e1) = bind_ok (validate lib o) _ plan e in
      let (_, _, e2) = bind_ok (validate_compile_extras lib o) _ plan e1 in
      let (push, p, e3) = bind_ok (derive_pushdown lib o) _ plan e2 in
      let (re, r, e4) = bind_ok (compile_regexes lib o) _ plan e3 in
      let (files, f, e5) = bind_ok (file_predicates lib o re) _ plan e4 in
      let (dates, d, e6) = bind_ok (date_predicates lib o) _ plan e5 in
      let (forwards, w, e7) = bind_ok (forward_predicates lib o) _ plan e6 in
      let (bounds, b, e8) = file_predicates_ok o re files f in
      record {
        re = re;
        bounds = bounds;
        dates = dates;
        forwards = forwards;
        pushed = p ∙ cc e7;
        regexes = r;
        parsed = b;
        dated = d;
        forwarded = w;
        listed = cc (e7, e8);
      }

  -- A message that matches passes the predicates of each family.
  pub record Passes (o : Options) (re : RegexSet) (bounds : FileBounds)
      (dates forwards : List NamedPredicate) (ctx : Context) : Type 0 where
    pub chat : all_pass (chat_predicates lib o re) ctx ≡ true
    pub sender : all_pass (sender_predicates lib o re) ctx ≡ true
    pub media : all_pass (media_predicates o) ctx ≡ true
    pub files : all_pass (file_match_predicates lib o re) ctx ≡ true
    pub limits : all_pass (file_bound_predicates lib o bounds) ctx ≡ true
    pub text : all_pass (text_predicates lib o re) ctx ≡ true
    pub date : all_pass dates ctx ≡ true
    pub forward : all_pass forwards ctx ≡ true
    pub engagement : all_pass (engagement_predicates o) ctx ≡ true
    pub misc : all_pass (misc_predicates o) ctx ≡ true

  pub matches-Passes :
      (o : Options) (plan : Plan) (ctx : Context) (c : Compiled o plan)
      → matches plan ctx ≡ true
      → Passes o c.re c.bounds c.dates c.forwards ctx
  unfolding matches
  matches-Passes o plan ctx c m =
      let all = simp all_pass-append at (sym (ap (λ ps. all_pass ps ctx) c.listed) ∙ m) in
      record {
        chat = ground (arith, all);
        sender = ground (arith, all);
        media = ground (arith, all);
        files = ground (arith, all);
        limits = ground (arith, all);
        text = ground (arith, all);
        date = ground (arith, all);
        forward = ground (arith, all);
        engagement = ground (arith, all);
        misc = ground (arith, all);
      }
