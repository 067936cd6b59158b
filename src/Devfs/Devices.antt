-- ===== src/Devfs/Devices.antt =====
-- A device that was registered is found by its name and its number, and unregistering undoes it.
use nupkux.Base.{
  ℕ, suc, ◌+◌, ◌-◌, ◌*◌, ◌/◌, ◌%◌, ◌^◌, ◌≤◌, ◌<◌, ◌==◌, ◌≡◌, ◌≢◌, refl, sym, ◌∙◌, ap, ap₂, subst,
  List, [], ◌∷◌, ◌++◌, get_or, get_elem?, length, length-append, All, take, modify, true, false,
  some, arith,
}
use nupkux.CString.{IsCString}
use nupkux.Paths.{namei_match}
use nupkux.Paths.Match.{IsName}
use nupkux.Vnodes.{Vnode, iget}
use nupkux.Devfs.{
  Entry, Handle, Inode, Devfs, Device, entry_size, filename_len, find, update, unlink, devfs_iget,
  fill_inode, refresh, filename_of, blank_entry, devfs_add_d_entry, remove_behind, without_entry,
  devfs_del_d_entry, is_dir, new_handle, counted, register_in, devfs_register_device,
  devfs_unregister_device, match_entry, devfs_lookup, devfs_add_to_cache, devfs_del_from_cache,
}
use nupkux.Devfs.Handles.{
  find-id, find-update, update-update, update-found, get_elem?-modify, get_or-last, take_all,
  filename_of-match, append_entry-last, remove_entry-last,
}

-- The directory at `dir` is the handle `h`, which is open as the vnode `node`, and has room.
pub record IsOpen (s : Devfs) (dir : ℕ) (h : Handle) (node : ℕ) (inode : Inode) : Type 0 where
  pub found : find dir s.cache ≡ some h
  pub directory : is_dir h.flags ≡ true
  pub size : h.size ≡ length h.entries * entry_size
  pub room : (length h.entries + 1) * entry_size < 2 ^ 32
  pub opened : h.node ≡ some node
  pub vnode : get_elem? s.nodes node ≡ some inode
  pub unused : s.next_id ≢ dir

-- A name of one component that fits into an entry
pub record IsDevice (d : Device) : Type 0 where
  pub string : IsCString d.name
  pub name : IsName d.name
  pub fits : length d.name ≤ filename_len

-- The directory with the new entry.
abbrev pub grown : Handle → Entry → Handle
grown h e = record h { size = (length h.entries + 1) * entry_size; entries = h.entries ++ (e ∷ []) }

-- The file system behind `devfs_register_device`.
abbrev pub registered : Devfs → ℕ → Handle → ℕ → Device → Entry → Devfs
registered s dir h node d e = devfs_add_to_cache (new_handle dir d s) (record (counted s) {
  cache = update dir (grown h e) s.cache;
  nodes = modify (fill_inode (grown h e)) s.nodes node;
})

-- An open directory that was updated is the same in the cache and fills its vnode in.
refresh_lem :
    (s : Devfs) (dir : ℕ) (k : Handle) (node : ℕ)
    → k.id ≡ dir
    → k.node ≡ some node
    → refresh k.node k (record s { cache = update dir k s.cache })
      ≡ record s { cache = update dir k s.cache; nodes = modify (fill_inode k) s.nodes node }
refresh_lem s dir k node same opened =
    let s' : Devfs = record s { cache = update dir k s.cache } in
    let back : record k { node = some node } ≡ k = ap (λ n. record k { node = n }) (sym opened) in
    ap (λ o. refresh o k s') opened
    ∙ ap₂ {C = Devfs}
        (λ i k'. record s' {
          cache = update i k' s'.cache;
          nodes = modify (fill_inode k) s.nodes node;
        })
        same back
    ∙ ap {B = Devfs} (λ c. record s { cache = c; nodes = modify (fill_inode k) s.nodes node })
        (update-update dir s.cache k k same)

module _ (s : Devfs) (dir : ℕ) (h : Handle) (node : ℕ) (inode : Inode) (d : Device)
    (opened : IsOpen s dir h node inode) (device : IsDevice d) where
  entry_count : h.size / entry_size ≡ length h.entries
  entry_count = omega (arith, opened.size)

  grown_size : (h.size / entry_size + 1) * entry_size % 2 ^ 32 ≡ (length h.entries + 1) * entry_size
  grown_size = omega (arith, opened.size, opened.room)

  add_entry :
      (buf : List ℕ)
      → filename_of d.name ≡ some buf
      → devfs_add_d_entry dir d.name s.next_inode (counted s)
        ≡ some (record (counted s) {
          cache = update dir (grown h (record { inode = s.next_inode; filename = buf })) s.cache;
          nodes =
              modify
                (fill_inode (grown h (record { inode = s.next_inode; filename = buf })))
                s.nodes
                node;
        })
  unfolding devfs_add_d_entry
  add_entry buf eq =
      let e : Entry = record { inode = s.next_inode; filename = buf } in
      let added = append_entry-last h.entries (h.size / entry_size) e entry_count in
      rw (opened.found, eq, added, grown_size)
        (ap some (
          refresh_lem (counted s) dir (grown h e) node (find-id dir s.cache h opened.found)
            opened.opened))

  register_lem :
      (buf : List ℕ)
      → filename_of d.name ≡ some buf
      → devfs_register_device (some dir) d s
        ≡ some (
          some s.next_id,
          registered s dir h node d (record { inode = s.next_inode; filename = buf }),
        )
  unfolding devfs_register_device register_in
  register_lem buf eq = rw (opened.found, opened.directory, add_entry buf eq) refl

  find-grown : (e : Entry) → find dir (registered s dir h node d e).cache ≡ some (grown h e)
  unfolding find
  find-grown e =
      let other : (s.next_id == dir) ≡ false = ground (arith, opened.unused) in
      rw other
        (find-update dir s.cache h (grown h e) opened.found (find-id dir s.cache h opened.found))

  lookup_registered :
      (buf : List ℕ) (vnodes : List Vnode)
      → namei_match d.name buf ≡ true
      → devfs_lookup node d.name vnodes
          (registered s dir h node d (record { inode = s.next_inode; filename = buf }))
        ≡ some (some s.next_inode, iget vnodes s.next_inode)
  unfolding devfs_lookup match_entry
  lookup_registered buf vnodes eq =
      let e : Entry = record { inode = s.next_inode; filename = buf } in
      let vnode = get_elem?-modify (fill_inode (grown h e)) s.nodes node inode opened.vnode in
      let there : find h.id (registered s dir h node d e).cache ≡ some (grown h e) =
        ap (λ i. find i (registered s dir h node d e).cache) (find-id dir s.cache h opened.found)
        ∙ find-grown e in
      let count : (length h.entries + 1) * entry_size / entry_size ≡ suc (length h.entries) =
        omega arith in
      let last : get_or (h.entries ++ (e ∷ [])) (length h.entries) blank_entry ≡ e =
        get_or-last h.entries e blank_entry in
      rw (vnode, there, count, last, eq) refl

  -- In a directory that is open and has room, `devfs_register_device` of a name of one component with
  -- at most 16 bytes gives a handle; `devfs_lookup` of the name finds its number then, whatever names the
  -- directory had, and `devfs_iget` of the number gives the handle.
  pub devfs_register_device-devfs_lookup :
      (vnodes : List Vnode)
      → (s' : Devfs) × (devfs_register_device (some dir) d s ≡ some (some s.next_id, s'))
        × (devfs_lookup node d.name vnodes s' ≡ some (some s.next_inode, iget vnodes s.next_inode))
        × (devfs_iget s.next_inode s'.cache ≡ some (new_handle dir d s))
  unfolding devfs_iget
  devfs_register_device-devfs_lookup vnodes =
      let (buf, eq, match) = filename_of-match d.name device.string device.name device.fits in
      let first : (s.next_inode == s.next_inode) ≡ true = ground arith in
      (
        registered s dir h node d (record { inode = s.next_inode; filename = buf }),
        register_lem buf eq,
        lookup_registered buf vnodes match,
        rw first refl,
      )

  -- Unregistering.
  del_entry :
      (e : Entry) (dot dots : Entry) (rest : List Entry)
      → e.inode ≡ s.next_inode
      → h.entries ≡ dot ∷ dots ∷ rest
      → All (λ x. x.inode ≢ e.inode) rest
      → remove_behind s.next_inode (take ((grown h e).size / entry_size) (grown h e).entries)
        ≡ some h.entries
  del_entry e dot dots rest num shape new =
      let count : (length h.entries + 1) * entry_size / entry_size ≡ length h.entries + 1 =
        omega arith in
      let whole : take (length h.entries + 1) (h.entries ++ (e ∷ [])) ≡ h.entries ++ (e ∷ []) =
        ap (λ n. take n (h.entries ++ (e ∷ []))) (sym (length-append h.entries (e ∷ [])))
        ∙ take_all (h.entries ++ (e ∷ [])) in
      let last = remove_entry-last rest e new in rw (count, whole, shape, sym num, last) refl

  module _ (dot dots : Entry) (rest : List Entry) (shape : h.entries ≡ dot ∷ dots ∷ rest)
      (new : All (λ x. x.inode ≢ s.next_inode) rest) where
    del_lem :
        (e : Entry)
        → e.inode ≡ s.next_inode
        → devfs_del_d_entry (some dir) s.next_inode (registered s dir h node d e)
          ≡ some (without_entry (some h.entries) (grown h e) (registered s dir h node d e))
    unfolding devfs_del_d_entry
    del_lem e num =
        let new' = subst (λ i. All (λ x. x.inode ≢ i) rest) (sym num) new in
        rw (find-grown e, del_entry e dot dots rest num shape new') refl

    cache_back :
        (e : Entry)
        → unlink s.next_id
            (without_entry (some h.entries) (grown h e) (registered s dir h node d e)).cache
          ≡ s.cache
    unfolding unlink update
    cache_back e =
        let old : record (grown h e) {
          entries = h.entries;
          size = (length h.entries + 1) * entry_size - entry_size;
        }
            ≡ h =
          ap (λ n. record h { size = n }) (omega (arith, opened.size)) in
        let same : h.id ≡ dir = find-id dir s.cache h opened.found in
        let other : (s.next_id == dir) ≡ false = ground (arith, opened.unused) in
        let first : (s.next_id == s.next_id) ≡ true = ground arith in
        ap (λ t. unlink s.next_id t.cache)
          (refresh_lem (registered s dir h node d e) h.id
            (record (grown h e) {
              entries = h.entries;
              size = (length h.entries + 1) * entry_size - entry_size;
            })
            node refl opened.opened)
        ∙ ap₂ (λ i k. unlink s.next_id (update i k (registered s dir h node d e).cache)) same old
        ∙ rw (other, first)
            (update-update dir s.cache (grown h e) h same ∙ update-found dir s.cache h opened.found)

    find_new :
        (e : Entry) → find s.next_id (registered s dir h node d e).cache ≡ some (new_handle dir d s)
    unfolding find
    find_new e = let first : (s.next_id == s.next_id) ≡ true = ground arith in rw first refl

    -- `devfs_unregister_device` of a device that was registered in a directory without an entry of its
    -- number leaves the handles as they were before.
    pub devfs_register_device-devfs_unregister_device :
        (s' s'' : Devfs) × (devfs_register_device (some dir) d s ≡ some (some s.next_id, s'))
        × (devfs_unregister_device (some s.next_id) s' ≡ some s'')
        × (s''.cache ≡ s.cache)
    unfolding devfs_unregister_device
    devfs_register_device-devfs_unregister_device =
        let (buf, eq, match) = filename_of-match d.name device.string device.name device.fits in
        let e : Entry = record { inode = s.next_inode; filename = buf } in
        (
          registered s dir h node d e,
          devfs_del_from_cache s.next_id
              (without_entry (some h.entries) (grown h e) (registered s dir h node d e)),
          register_lem buf eq,
          rw (find_new e, del_lem e refl) refl,
          cache_back e,
        )
