-- ===== src/Download/Process.antt =====
-- internal/download/downloader.go: the way of a claimed item before the retry ladder, the collision
-- policy, and the queueing of discovered items.
pub mod Items
use teleparse.Base.{
  ℕ, zero, suc, ◌+◌, Bool, true, false, ◌&&◌, Option, none, some, List, [], ◌∷◌, ◌++◌, ℤ, same_ℤ,
  String, same, pos_part, if◌then◌else◌,
}
use teleparse.Base.Results.{Result, ok, err, ◌>>=◌, ◌>>◌}
use teleparse.Store.Media.{MediaItem, upsert_media, media_by_file, status_queued, status_done}
use teleparse.Download.{
  Config, Fault, hardlink_mode, oversized_for_takeout, takeout_precheck_attempts, dedupe_enabled,
  collision_index_max,
}
use teleparse.Download.Settle.{World, Clock, fail_item, skip_item, settle_done}
use teleparse.Download.Ladder.{Env, Linking, check, link_or_copy, download_with_retries}

-- The first free name among those with the indices from `index` on; `name` is the `Sprintf` of a
-- candidate.
module _ (exists : String → Bool) (name : ℕ → String) where
  unfoldable pub index_from : ℕ → ℕ → Option String
  index_from zero index = none
  index_from (suc left) index =
      let rest = index_from left (suc index) in
      if exists (name index) then rest else some (name index)

  unfoldable pub index_free_path : Option String
  index_free_path = index_from collision_index_max 1

  -- The path, and whether the item counts as present.
  unfoldable pub final_path_for : String → Fault → String → Result Fault (String × Bool)
  final_path_for policy no_free_index path =
      if exists path
      then (if same policy "overwrite"
          then ok (path, false)
          else if same policy "skip"
          then ok (path, true)
          else elim index_free_path [
            | some indexed ↦ ok (indexed, false)
            | none ↦ err no_free_index
          ])
      else ok (path, false)

-- What an item's processing asks for: the resolver's path and location, which files there are,
-- candidate names, the size of the part file that is opened next to a path, and, in hardlink mode,
-- the path of the blob and what linking it reports.
pub record Site (L : Type 0) : Type 0 where
  pub resolve : MediaItem → Result Fault (String × L)
  pub exists : String → Bool
  pub name : String → ℕ → String
  pub open_part : String → Result Fault ℤ
  pub blob_path : MediaItem → String
  pub same_file : String → String → Bool
  pub make_dir : Option Fault
  pub link : Linking
  pub too_big : Fault
  pub no_free_index : Fault
  pub start : Clock

-- `env` has the answers to the attempts.
module _ {L : Type 0} (env : Env L) (site : Site L) (item : MediaItem) where
  abbrev pub fails : World → Fault → Option World
  fails w e = some (fail_item site.start item w e (pos_part env.cfg.retry_max))

  -- `downloadWithRetries` up to its loop; the part file lies next to the path that is promoted.
  unfoldable pub start_ladder : L → World → String → Option World
  start_ladder location w final_path =
      let promote_path = if hardlink_mode env.cfg then site.blob_path item else final_path in
      elim (site.open_part promote_path) [
        | err e ↦ fails w e
        | ok offset ↦ download_with_retries env item final_path w offset location
      ]

  -- The collision policy; `next` is what follows once a path is chosen.
  unfoldable pub choose_path : (World → String → Option World) → World → String → Option World
  choose_path next w path =
      elim (final_path_for site.exists (site.name path) env.cfg.collision site.no_free_index path) [
        | err e ↦ fails w e
        | ok (final_path, skip) ↦
            if skip then some (skip_item site.start item w final_path) else next w final_path
      ]

  unfoldable pub link_blob_into : World → String → Result Fault World
  unfolding settle_done
  link_blob_into w final_path = do
    check site.make_dir
    w' ← link_or_copy site.link w
    ok (
        settle_done site.start item w' final_path none
          (record w'.res { linked = w'.res.linked + 1 }))

  unfoldable pub link_item : World → String → Option World
  link_item w final_path = elim (link_blob_into w final_path) [
    | err e ↦ fails w e
    | ok w' ↦ some w'
  ]

  unfoldable pub process_hardlink_item : World → L → String → Option World
  process_hardlink_item w location path =
      let blob = site.blob_path item in
      if site.exists blob
      then (if site.same_file path blob
          then some (skip_item site.start item w path)
          else choose_path link_item w path)
      else choose_path (start_ladder location) w path

  unfoldable pub process_item : World → Option World
  process_item w =
      if oversized_for_takeout env.cfg.file_max_size item.size
      then some (fail_item site.start item w site.too_big takeout_precheck_attempts)
      else elim (site.resolve item) [
        | err e ↦ fails w e
        | ok (path, location) ↦
            if env.cfg.skip_existing && site.exists path
            then some (skip_item site.start item w path)
            else if hardlink_mode env.cfg
            then process_hardlink_item w location path
            else choose_path (start_ladder location) w path
      ]

-- What `Enqueue` changes: the store and the fields of the manager; `chats` are the keys of its map.
pub record Queue : Type 0 where
  pub media : List MediaItem
  pub chats : List ℤ
  pub duplicates : ℕ
  pub pending_links : List MediaItem

unfoldable pub add_key : ℤ → List ℤ → List ℤ
add_key c [] = c ∷ []
add_key c (d ∷ ds) = let more = add_key c ds in if same_ℤ c d then d ∷ ds else d ∷ more

-- A duplicate sighting, which hardlink mode remembers.
unfoldable pub count_duplicate : String → MediaItem → Queue → Queue
count_duplicate dedupe item q = record q {
  duplicates = q.duplicates + 1;
  pending_links =
      if same dedupe "hardlink" then q.pending_links ++ (item ∷ []) else q.pending_links;
}

abbrev is_done : Option MediaItem → Bool
is_done none = false
is_done (some r) = same r.status status_done

unfoldable pub enqueue_one : String → String → MediaItem → Queue → Queue
unfolding count_duplicate add_key
enqueue_one dedupe now given q =
    let item = record given { status = status_queued; attempts = 0 } in
    if dedupe_enabled dedupe && is_done (media_by_file q.media item.media_class item.media_id)
    then count_duplicate dedupe item q
    else (let (media, stored) = upsert_media q.media now item in
        let q' = record q { media = media } in
        if stored
        then record q' { chats = add_key item.chat_id q.chats }
        else count_duplicate dedupe item q')

unfoldable pub enqueue : String → String → List MediaItem → Queue → Queue
unfolding enqueue_one
enqueue dedupe now [] q = q
enqueue dedupe now (item ∷ items) q = enqueue dedupe now items (enqueue_one dedupe now item q)
