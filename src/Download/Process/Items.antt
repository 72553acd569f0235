-- ===== src/Download/Process/Items.antt =====
-- Every claimed item is settled, and what becomes of one that a takeout session cannot carry.
use teleparse.Base.{
  ◌+◌, ◌<◌, true, false, ◌&&◌, inl, inr, Option, some, none, ◌≡◌, refl, subst, String, pos_part,
  same_ℤ_iff, Bool-cases, arith, if◌then◌else◌,
}
use teleparse.Base.Results.{ok, Result-cases, bind_ok}
use teleparse.Store.Table.{query_row_found}
use teleparse.Store.Media.{
  MediaItem, at_key, of_chat, has_status, claimable, mark_failed, set_failed,
}
use teleparse.Store.Media.Steps.{set_failed-KeepsIdentity}
use teleparse.Store.Media.Unique.{at_key_parts, query_row-at_key}
use teleparse.Download.{
  Fault, hardlink_mode, oversized_for_takeout, takeout_precheck_attempts, error_string,
  count_failed,
}
use teleparse.Download.Settle.{World, fail_item, skip_item, record_failure, settle_done}
use teleparse.Download.Outcomes.{
  row_of, Ends, linked, Held, Ends-from, fail_item-Ends, skip_item-Ends, settle_done-Recorded,
}
use teleparse.Download.Ladder.{Env, check, link_or_copy}
use teleparse.Download.Ladder.Ends.{download_settles, link_or_copy_keeps}
use teleparse.Download.Process.{
  Site, final_path_for, fails, start_ladder, choose_path, link_blob_into, link_item,
  process_hardlink_item, process_item,
}

module _ {L : Type 0} (env : Env L) (site : Site L) (item : MediaItem) where
  abbrev Settled : World → Option World → Type 0
  Settled w o = (path : String) × (w' : World) × (o ≡ some w') × Ends item path w w'

  fails-Settled : (w : World) (e : Fault) → Held item w → Settled w (fails env site item w e)
  fails-Settled w e h = (
    "",
    fail_item site.start item w e (pos_part env.cfg.retry_max),
    refl,
    fail_item-Ends item "" site.start w e (pos_part env.cfg.retry_max) h,
  )

  skips-Settled :
      (w : World) (path : String)
      → Held item w
      → Settled w (some (skip_item site.start item w path))
  skips-Settled w path h =
      (path, skip_item site.start item w path, refl, skip_item-Ends item path site.start w h)

  start_ladder-Settled :
      (w : World) (location : L) (path : String)
      → item.attempts < pos_part env.cfg.retry_max
      → Held item w
      → Settled w (start_ladder env site item location w path)
  unfolding start_ladder
  start_ladder-Settled w location path few h =
      let promote_path = if hardlink_mode env.cfg then site.blob_path item else path in
      elim (Result-cases (site.open_part promote_path)) [
        | inr (e, f) ↦ simp (f, start_ladder) (fails-Settled w e h)
        | inl (offset, f) ↦
            let (w', e, ends) = download_settles env item path w offset location few h in
            (path, w', simp (f, start_ladder) e, ends)
      ]

  choose_path-Settled :
      (next : World → String → Option World) (w : World) (path : String)
      → ((final_path : String) → Settled w (next w final_path))
      → Held item w
      → Settled w (choose_path env site item next w path)
  unfolding choose_path
  choose_path-Settled next w path goes h =
      elim (Result-cases
        (final_path_for site.exists (site.name path) env.cfg.collision site.no_free_index path)) [
          | inr (e, f) ↦ simp (f, choose_path) (fails-Settled w e h)
          | inl ((final_path, true), f) ↦ simp (f, choose_path) (skips-Settled w final_path h)
          | inl ((final_path, false), f) ↦ simp (f, choose_path) (goes final_path)
        ]

  link_blob_into-Ends :
      (w w' : World) (path : String)
      → link_blob_into env site item w path ≡ ok w'
      → Held item w
      → Ends item path w w'
  unfolding link_blob_into settle_done
  link_blob_into-Ends w w' path e h =
      let (_, _, r1) = bind_ok (check site.make_dir) _ w' e in
      let (w1, link_ok, r2) = bind_ok (link_or_copy site.link w) _ w' r1 in
      let (h1, same, more) = link_or_copy_keeps item site.link w w1 link_ok h in
      let done = record w1.res { linked = w1.res.linked + 1 } in
      let same_world : settle_done site.start item w1 path none done ≡ w' = cc in
      subst (Ends item path w) same_world (
        Ends-from item path w w1 _ same more
          (linked (settle_done-Recorded item path site.start w1 path none done h1) refl))

  link_item-Settled :
      (w : World) (path : String) → Held item w → Settled w (link_item env site item w path)
  unfolding link_item
  link_item-Settled w path h = elim (Result-cases (link_blob_into env site item w path)) [
    | inr (e, f) ↦ simp (f, link_item) (fails-Settled w e h)
    | inl (w', f) ↦ (path, w', simp (f, link_item), link_blob_into-Ends w w' path f h)
  ]

  process_hardlink_item-Settled :
      (w : World) (location : L) (path : String)
      → item.attempts < pos_part env.cfg.retry_max
      → Held item w
      → Settled w (process_hardlink_item env site item w location path)
  unfolding process_hardlink_item
  process_hardlink_item-Settled w location path few h =
      let blob = site.blob_path item in
      elim (Bool-cases (site.exists blob)) [
        | inr f ↦
            simp (f, process_hardlink_item)
              (choose_path-Settled (start_ladder env site item location) w path
                (λ final_path. start_ladder-Settled w location final_path few h) h)
        | inl f ↦ elim (Bool-cases (site.same_file path blob)) [
          | inl g ↦ simp (f, g, process_hardlink_item) (skips-Settled w path h)
          | inr g ↦
              simp (f, g, process_hardlink_item)
                (choose_path-Settled (link_item env site item) w path
                  (λ final_path. link_item-Settled w final_path h) h)
        ]
      ]

  -- The processing of a claimed item with attempts left always comes to an end, in hardlink mode and
  -- outside it, whatever the network, the files, the store and the pauses answer. Either exactly one of
  -- the five tallies (downloaded, skipped, failed, interrupted, linked) has gone up by one, and the row
  -- is recorded so, or the store has refused a statement, which is counted, and the row is still
  -- claimed; or the run has parked and the row is still downloading.
  pub process_item_settles :
      (w : World)
      → item.attempts < pos_part env.cfg.retry_max
      → Held item w
      → (path : String) × (w' : World) × (process_item env site item w ≡ some w')
        × Ends item path w w'
  unfolding process_item
  process_item_settles w few h =
      elim (Bool-cases (oversized_for_takeout env.cfg.file_max_size item.size)) [
        | inl f ↦ (
          "",
          fail_item site.start item w site.too_big takeout_precheck_attempts,
          simp (f, process_item),
          fail_item-Ends item "" site.start w site.too_big takeout_precheck_attempts h,
        )
        | inr f ↦ elim (Result-cases (site.resolve item)) [
          | inr (e, g) ↦ simp (f, g, process_item) (fails-Settled w e h)
          | inl ((path, location), g) ↦
              elim (Bool-cases (env.cfg.skip_existing && site.exists path)) [
                | inl k ↦ simp (f, g, k, process_item) (skips-Settled w path h)
                | inr k ↦ elim (Bool-cases (hardlink_mode env.cfg)) [
                  | inl m ↦
                      simp (f, g, k, m, process_item)
                        (process_hardlink_item-Settled w location path few h)
                  | inr m ↦
                      simp (f, g, k, m, process_item)
                        (choose_path-Settled (start_ladder env site item location) w path
                          (λ final_path. start_ladder-Settled w location final_path few h) h)
                ]
              ]
        ]
      ]

  -- Where more than one attempt is allowed, an item over the cap of the takeout session is counted as
  -- failed, yet, once the store has recorded that, its row can be claimed again at once, by the same
  -- run.
  pub process_item_oversized :
      (w : World)
      → oversized_for_takeout env.cfg.file_max_size item.size ≡ true
      → 1 < pos_part env.cfg.retry_max
      → site.start.settle_error ≡ false
      → (h : Held item w)
      → (w' : World) × (r : MediaItem) × (process_item env site item w ≡ some w')
        × (w'.res.failed ≡ w.res.failed + 1)
        × (row_of item w' ≡ some r)
        × (r.size ≡ h.row.size)
        × (claimable item.chat_id (pos_part env.cfg.retry_max) r ≡ true)
  unfolding process_item fail_item record_failure mark_failed set_failed count_failed row_of
      claimable of_chat has_status
  process_item_oversized w big many written h =
      let text = error_string site.too_big in
      let (chat, _, _) = at_key_parts item.chat_id item.message_id item.media_index h.row (
        query_row_found (at_key item.chat_id item.message_id item.media_index) w.media h.row
          h.found) in
      let same_chat = (same_ℤ_iff h.row.chat_id item.chat_id).1 chat in
      (
        fail_item site.start item w site.too_big takeout_precheck_attempts,
        set_failed site.start.stamp text takeout_precheck_attempts h.row,
        simp (big, process_item),
        refl,
        simp (written) (
            query_row-at_key (set_failed site.start.stamp text takeout_precheck_attempts)
              (set_failed-KeepsIdentity site.start.stamp text takeout_precheck_attempts)
              item.chat_id item.message_id item.media_index w.media h.row h.found),
        refl,
        simp (same_chat) (ground arith),
      )
