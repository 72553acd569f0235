-- ===== src/Download/Ranged.antt =====
-- internal/download/ranged.go: the ranged engine. Offsets are natural numbers, a file and a chunk are
-- lists of bytes, and the answers of the server are arguments.
pub mod Budget
pub mod Complete
use teleparse.Base.{
  ℕ, zero, suc, ◌+◌, ◌-◌, ◌%◌, ◌≤◌, Bool, true, false, not, ◌&&◌, ◌||◌, Option, none, some, List,
  [], ◌∷◌, ◌++◌, ltb, leb, length, take, drop, ℤ, pos, leb_ℤ, ltb_ℤ, ◌*ℤ◌, wrap_64, if◌then◌else◌,
}
use teleparse.Base.Results.{Result, ok, err}
use teleparse.Scan.Retry.{is_dead_transport}
use teleparse.Download.{Fault, is_cancellation_err, is_rpc}

abbrev pub ranged_chunk_size : ℕ
ranged_chunk_size = 524288

abbrev pub ranged_chunk_align : ℕ
ranged_chunk_align = 4096

abbrev pub ranged_chunk_retries : ℕ
ranged_chunk_retries = 12

-- Seconds, in nanoseconds.
abbrev pub ranged_backoff_base : ℤ
ranged_backoff_base = pos 1000000000

abbrev pub ranged_backoff_max : ℤ
ranged_backoff_max = pos 9000000000

abbrev pub ranged_backoff_growth : ℤ
ranged_backoff_growth = pos 3

abbrev pub ranged_flood_sleep_max : ℤ
ranged_flood_sleep_max = pos 15

abbrev pub ranged_server_err_code : ℤ
ranged_server_err_code = pos 500

-- `offset &^ (align - 1)`, where `align` is a power of two.
unfoldable pub align_down : ℕ → ℕ → ℕ
align_down offset align = offset - offset % align

unfoldable pub grown : ℕ → ℤ → ℤ
grown zero delay = delay
grown (suc n) delay =
    let next = wrap_64 (delay *ℤ ranged_backoff_growth) in
    let more = grown n next in if leb_ℤ ranged_backoff_max next then ranged_backoff_max else more

unfoldable pub ranged_backoff : ℕ → ℤ → ℤ
ranged_backoff retry base = grown (retry - 1) base

-- `alive` is whether the context still runs; `net_error` and `rpc_code` are what `errors.As` finds.
unfoldable pub ranged_transient : Bool → Bool → Option ℤ → Fault → Bool
ranged_transient alive net_error rpc_code e =
    if is_cancellation_err e
    then alive
    else is_dead_transport e.transport
      || net_error
      || (elim rpc_code [ some c ↦ leb_ℤ ranged_server_err_code c | none ↦ false ])

-- One turn of the loop of `request`: the context is dead, or what `chunkOnce` answers with what
-- follows from it. A flood wait is in seconds, with the error of the pause; `refetched` and
-- `migrated` are the branches of an expired reference and of a file on another data center.
pub data Turn : Type 0 where
  dead : Fault → Turn
  chunk : List ℕ → Turn
  flood : ℤ → Fault → Option Fault → Turn
  refetched : Option Fault → Turn
  migrated : Turn
  failure : Bool → Fault → Option Fault → Turn

-- The loop of `request` with the turns that the server and the context deal it, `none` where it is
-- still waiting; `failure transient e pause` carries the verdict of `rangedTransient`.
unfoldable pub request : ℕ → ℕ → List Turn → Option (Result Fault (List ℕ))
request limit retries [] = none
request limit retries (dead e ∷ turns) = some (err e)
request limit retries (chunk bytes ∷ turns) = some (ok bytes)
request limit retries (flood seconds e pause ∷ turns) =
    let rest = request limit retries turns in
    if ltb_ℤ ranged_flood_sleep_max seconds
    then some (err e)
    else elim pause [ some x ↦ some (err x) | none ↦ rest ]
request limit retries (refetched problem ∷ turns) =
    let rest = request limit retries turns in elim problem [ some x ↦ some (err x) | none ↦ rest ]
request limit retries (migrated ∷ turns) = request limit retries turns
request limit retries (failure transient e pause ∷ turns) =
    let rest = request limit (suc retries) turns in
    if not transient
    then some (err e)
    else if leb limit retries
    then some (err e)
    else elim pause [ some x ↦ some (err x) | none ↦ rest ]

-- `WriteAt` on a file: bytes between its end and the offset are zero.
unfoldable pub zeros : ℕ → List ℕ
zeros zero = []
zeros (suc n) = 0 ∷ zeros n

unfoldable pub overwrite : List ℕ → ℕ → List ℕ → List ℕ
unfolding zeros
overwrite file offset bytes =
    take offset file
    ++ (zeros (offset - length file) ++ (bytes ++ drop (offset + length bytes) file))

-- The answers to the requests at each offset, the errors of writes, the error of a short file, and
-- the size in the manifest, 0 where it is unknown.
pub record Source : Type 0 where
  pub ask : ℕ → Result Fault (List ℕ)
  pub write_error : ℕ → Option Fault
  pub short_file : Fault
  pub total : ℕ

module _ (s : Source) where
  -- The part of an answer that is new, and no longer than the file.
  unfoldable pub fresh_part : ℕ → List ℕ → List ℕ
  fresh_part position answer =
      let data_left = drop (position - align_down position ranged_chunk_align) answer in
      if ltb 0 s.total && ltb s.total (position + length data_left)
      then take (s.total - position) data_left
      else data_left

  unfoldable pub is_complete : ℕ → List ℕ → Bool
  is_complete position written =
      let next = position + length written in
      if ltb 0 s.total
      then leb s.total next
      else ltb (length written + (position - align_down position ranged_chunk_align))
          ranged_chunk_size

  -- `next`: the advanced position, whether the transfer is complete, and the file.
  unfoldable pub next : ℕ → List ℕ → Result Fault (ℕ × Bool × List ℕ)
  next position file =
      let request_offset = align_down position ranged_chunk_align in
      elim (s.ask request_offset) [
        | err e ↦ err e
        | ok answer ↦
            if leb (length answer) (position - request_offset)
            then (if ltb 0 s.total && ltb position s.total
                then err s.short_file
                else ok (position, true, file))
            else elim (s.write_error position) [
              | some e ↦ err e
              | none ↦
                  let part = fresh_part position answer in
                  ok (
                    position + length part,
                    is_complete position part,
                    overwrite file position part,
                  )
            ]
      ]

  -- The loop of `rangedFetch` with so many rounds: the number of new bytes and the file, or the error
  -- with the file as it was left.
  unfoldable pub fetch_loop : ℕ → ℕ → ℕ → List ℕ → Option (Result (Fault × List ℕ) (ℕ × List ℕ))
  fetch_loop zero offset position file = none
  fetch_loop (suc rounds) offset position file = elim (next position file) [
    | err e ↦ some (err (e, file))
    | ok (position', complete, file') ↦
        let more = fetch_loop rounds offset position' file' in
        if complete then some (ok (position' - offset, file')) else more
  ]
