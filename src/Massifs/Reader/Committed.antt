-- ===== src/Massifs/Reader/Committed.antt =====
-- A context that was committed (massifs/massifappendcontext.go) is read back by
-- massifs/massifreader.go from any store that returns what was put.
use go_merklelog.Base.{
  ℕ, ◌≤◌, ◌≡◌, ◌≢◌, inl, inr, refl, sym, Bool, false, some, none, ◌++◌, length, ap, ◌∙◌,
}
use go_merklelog.Base.{leb, Bool-cases, le→leb}
use go_merklelog.Base.Buffers.{Bytes}
use go_merklelog.Base.Results.{ok}
use go_merklelog.Base.Results
use go_merklelog.Massifs.Layout.{start_header_size}
use go_merklelog.Massifs.Start.{marshal_binary, make_massif_start}
use go_merklelog.Massifs.Start.Roundtrip.{Fits, reread}
use go_merklelog.Massifs.Start.Front.{make_massif_start-front}
use go_merklelog.Massifs.Context.{MassifContext, make_peak_stack_map}
use go_merklelog.Massifs.Context.First.{create_peak_stack_map_lem}
use go_merklelog.Massifs.Context.Append.{check_commit}
use go_merklelog.Massifs.Reader.{
  ObjectReader, ObjectWriter, ◌>>=◌, context_of_data, massif_error, whole_data, get_massif_context,
  commit_context,
}

-- What the theorem takes of a store. `MassifReadN` reads unconditionally, and caches what it reads
-- for `MassifData`; nothing is assumed of what `MassifData` returns right behind a `Put`.
pub record IsStore {W : Type 0} (reader : ObjectReader W) (writer : ObjectWriter W) : Type 0 where
  -- A full read of an object that was put returns what was put.
  pub reads_put :
      (i : ℕ) (b : Bytes) (creating : Bool) (w w' : W)
      → writer.put i b creating w ≡ (ok tt, w')
      → (w'' : W) × (reader.massif_read i w' ≡ (ok b, w''))
  -- A further full read returns the same.
  pub reads_again :
      (i : ℕ) (b : Bytes) (w w' : W)
      → reader.massif_read i w ≡ (ok b, w')
      → (w'' : W) × (reader.massif_read i w' ≡ (ok b, w''))
  -- `MassifData` returns what a full read has cached.
  pub cached :
      (i : ℕ) (b : Bytes) (w w' : W)
      → reader.massif_read i w ≡ (ok b, w')
      → reader.massif_data i w' ≡ (ok b, w')

-- How a reader comes to massif `i` from the store `w`, with no more than a start in the cache, or
-- behind a full read, which takes the place of what an earlier read has cached.
pub data Opened {W : Type 0} (reader : ObjectReader W) (i : ℕ) (w : W) : W → Type 0 where
  no_more_than_start :
      {w' : W} (part : Bytes)
      → w' ≡ w
      → reader.massif_data i w ≡ (ok part, w)
      → length part ≤ start_header_size
      → Opened reader i w w'
  read_in_full : {w' : W} (b : Bytes) → reader.massif_read i w ≡ (ok b, w') → Opened reader i w w'

-- the context that is read from the data of `mc`
abbrev pub read_back : MassifContext → MassifContext
read_back mc = record {
  data_bytes = mc.data_bytes;
  creating = false;
  start = reread 0 mc.start;
  next_ancestor = some 0;
  peak_stack_map = make_peak_stack_map mc.start.massif_height (reread 0 mc.start).first_index;
}

context_of_data-committed :
    (mc : MassifContext) (rest : Bytes)
    → Fits mc.start
    → mc.start.massif_height ≢ 0
    → mc.data_bytes ≡ marshal_binary mc.start ++ rest
    → context_of_data mc.data_bytes ≡ ok (read_back mc)
unfolding context_of_data
context_of_data-committed mc rest fits some_height begins =
    let read : make_massif_start mc.data_bytes ≡ ok (reread 0 mc.start) =
      ap make_massif_start begins ∙ make_massif_start-front mc.start rest fits in
    let bare : MassifContext = record (read_back mc) { peak_stack_map = none } in
    rw (read, Results.◌>>=◌) (rw (create_peak_stack_map_lem bare some_height, Results.◌>>=◌) refl)

module _ {W : Type 0} (reader : ObjectReader W) (writer : ObjectWriter W)
    (store : IsStore reader writer) where
  -- what `GetMassifContext` makes of the data, once it has all of it
  with_data :
      (mc : MassifContext) (rest : Bytes) (i : ℕ) (part : Bytes) (w w' : W)
      → Fits mc.start
      → mc.start.massif_height ≢ 0
      → mc.data_bytes ≡ marshal_binary mc.start ++ rest
      → reader.massif_data i w ≡ (ok part, w)
      → whole_data reader i part w ≡ (ok mc.data_bytes, w')
      → get_massif_context reader i w ≡ (ok (read_back mc), w')
  unfolding get_massif_context massif_error
  with_data mc rest i part w w' fits some_height begins held whole =
      rw (held, ◌>>=◌)
        (rw (whole, ◌>>=◌) (rw (context_of_data-committed mc rest fits some_height begins) refl))

  whole_data-short :
      (i : ℕ) (b part : Bytes) (w w' : W)
      → length part ≤ start_header_size
      → reader.massif_read i w ≡ (ok b, w')
      → whole_data reader i part w ≡ (ok b, w')
  unfolding whole_data
  whole_data-short i b part w w' short read = rw (le→leb (length part) 256 short) read

  whole_data-read :
      (i : ℕ) (b : Bytes) (w w' : W)
      → reader.massif_read i w ≡ (ok b, w')
      → (w'' : W) × (whole_data reader i b w' ≡ (ok b, w''))
  unfolding whole_data
  whole_data-read i b w w' read = elim (Bool-cases (leb (length b) 256)) [
    | inl short ↦ let (w'', again) = store.reads_again i b w w' read in (w'', rw short again)
    | inr long ↦ (w', rw long refl)
  ]

  get_massif_context-Opened :
      (mc : MassifContext) (rest : Bytes) (i : ℕ) (w opened w' : W)
      → Fits mc.start
      → mc.start.massif_height ≢ 0
      → mc.data_bytes ≡ marshal_binary mc.start ++ rest
      → reader.massif_read i w ≡ (ok mc.data_bytes, w')
      → Opened reader i w opened
      → (end : W) × (get_massif_context reader i opened ≡ (ok (read_back mc), end))
  get_massif_context-Opened mc rest i w opened w' fits some_height begins full
        (no_more_than_start part same held short) =
      (
        w',
        rw same (
            with_data mc rest i part w w' fits some_height begins held
              (whole_data-short i mc.data_bytes part w w' short full)),
      )
  get_massif_context-Opened mc rest i w opened w' fits some_height begins full
        (read_in_full b read) =
      let both = sym full ∙ read in
      let same : opened ≡ w' = sym (ap (λ r. r.1) both) in
      let (w'', whole) = whole_data-read i mc.data_bytes w w' full in
      (
        w'',
        rw same (
            with_data mc rest i mc.data_bytes w' w'' fits some_height begins
              (store.cached i mc.data_bytes w w' full) whole),
      )

  -- A context that is not over full, whose data begins with its start record, with fields of their
  -- widths and a height that is not 0, and whose put succeeds, is committed and is no longer new.
  -- For a store where a full read returns what was put, a further one the same, and MassifData
  -- what a full read has cached, the massif is then read, by a reader whose cache holds no more than
  -- a start or that has made a full read since the put: GetMassifContext succeeds with the data
  -- that was committed, its start record, in which the epoch of the data and the reserved field are
  -- 0, and the peak map of its first node.
  pub get_massif_context-commit_context :
      (mc : MassifContext) (rest : Bytes) (w stored opened : W)
      → Fits mc.start
      → mc.start.massif_height ≢ 0
      → mc.data_bytes ≡ marshal_binary mc.start ++ rest
      → check_commit mc ≡ ok tt
      → writer.put mc.start.massif_index mc.data_bytes mc.creating w ≡ (ok tt, stored)
      → Opened reader mc.start.massif_index stored opened
      → (commit_context writer mc w ≡ (ok tt, record mc { creating = false }, stored))
        × (end : W) × (get_massif_context reader mc.start.massif_index opened
            ≡ (ok (read_back mc), end))
  unfolding commit_context
  get_massif_context-commit_context mc rest w stored opened fits some_height begins checked put_ok
        open_by =
      let i = mc.start.massif_index in
      let (w', full) = store.reads_put i mc.data_bytes mc.creating w stored put_ok in
      let (end, found) =
        get_massif_context-Opened mc rest i stored opened w' fits some_height begins full open_by in
      (rw (checked, put_ok) refl, end, found)
