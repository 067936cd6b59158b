-- ===== src/Devfs/Remount.antt =====
-- A mounted file system, and what unmounting leaves for the next one.
use nupkux.Base.{
  ◌+◌, ◌*◌, ◌≡◌, refl, List, [], ◌∷◌, ◌++◌, get_elem?, length, modify, true, false, none, some,
  arith, ==_refl,
}
use nupkux.Vnodes.{Vnode, iget}
use nupkux.Devfs.{
  Handle, Devfs, Device, entry_size, find, update, devfs_iget, fill_inode, empty_inode,
  devfs_read_inode, devfs_empty_dir, devfs_put_super, read_devfs_sb, new_handle,
  devfs_register_device, devfs_lookup, dot_name, dots_name,
}
use nupkux.Devfs.Handles.{get_elem?-modify}
use nupkux.Devfs.Devices.{IsOpen, IsDevice, devfs_register_device-devfs_lookup}

-- The root's handle that `read_devfs_sb` makes, and the file system behind the call.
abbrev pub root_handle : Devfs → Handle
root_handle s = record {
  id = s.next_id;
  ino = 0;
  nlinks = 1;
  uid = 0;
  gid = 0;
  mode = 755;
  flags = 2;
  size = entry_size * 2;
  entries =
      record { inode = 0; filename = dot_name } ∷ record { inode = 0; filename = dots_name } ∷ [];
  f_op = 1;
  parent = none;
  node = some (length s.nodes);
}

abbrev pub mounted : Devfs → Devfs
mounted s = record s {
  cache = root_handle s ∷ [];
  devfs_root = some s.next_id;
  devfs_sb = true;
  nodes = modify (fill_inode (root_handle s)) (s.nodes ++ (empty_inode 0 ∷ [])) (length s.nodes);
  next_id = s.next_id + 1;
}

get_elem?-last {ℓ} :
    {A : Type ℓ} (xs : List A) (x : A) → get_elem? (xs ++ (x ∷ [])) (length xs) ≡ some x
get_elem?-last [] x = refl
get_elem?-last (y ∷ xs) x = get_elem?-last xs x

read_devfs_sb_lem : (s : Devfs) → s.devfs_sb ≡ false → read_devfs_sb s ≡ some (true, mounted s)
unfolding read_devfs_sb devfs_empty_dir devfs_read_inode devfs_iget update
read_devfs_sb_lem s e = rw (e, get_elem?-last s.nodes (empty_inode 0), ==_refl s.next_id) refl

pub mounted-IsOpen :
    (s : Devfs)
    → IsOpen
        (mounted s)
        s.next_id
        (root_handle s)
        (length s.nodes)
        (fill_inode (root_handle s) (empty_inode 0))
unfolding find
mounted-IsOpen s = record {
  found = rw (==_refl s.next_id) refl;
  directory = refl;
  size = refl;
  room = omega arith;
  opened = refl;
  vnode =
      get_elem?-modify (fill_inode (root_handle s)) (s.nodes ++ (empty_inode 0 ∷ []))
        (length s.nodes) (empty_inode 0) (get_elem?-last s.nodes (empty_inode 0));
  unused = λ e. omega (arith, e);
}

-- Behind `devfs_put_super`, `read_devfs_sb` mounts again and the first device of the root directory
-- is found by its name, but its number is 0, which is the root's, and `devfs_iget` of 0 gives the device.
pub devfs_put_super-read_devfs_sb :
    (s : Devfs) (d : Device) (vnodes : List Vnode)
    → IsDevice d
    → (s1 s2 : Devfs) × (read_devfs_sb (devfs_put_super s) ≡ some (true, s1))
      × (devfs_register_device none d s1 ≡ some (some s1.next_id, s2))
      × (devfs_lookup (length s.nodes) d.name vnodes s2 ≡ some (some 0, iget vnodes 0))
      × (devfs_iget 0 s2.cache ≡ some (new_handle s.next_id d s1))
unfolding devfs_put_super devfs_register_device
devfs_put_super-read_devfs_sb s d vnodes device =
    let closed : Devfs = devfs_put_super s in
    let (s2, made, named, numbered) =
      devfs_register_device-devfs_lookup (mounted closed) s.next_id (root_handle closed)
        (length s.nodes) (fill_inode (root_handle closed) (empty_inode 0)) d (mounted-IsOpen closed)
        device vnodes in
    (mounted closed, s2, read_devfs_sb_lem closed refl, made, named, numbered)
