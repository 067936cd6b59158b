-- ===== src/Devfs/Tests.antt =====
-- A mounted device file system with a console, and the theorems applied to it.
use nupkux.Base.{◌≡◌, refl, [], ◌∷◌, some, none, false, arith, neg}
use nupkux.Vnodes.{iget}
use nupkux.Devfs.{
  Devfs, Device, devfs_register_device, devfs_unregister_device, devfs_lookup, devfs_iget,
  devfs_readdir, devfs_put_super, read_devfs_sb, new_handle, fill_inode, empty_inode, Inode,
  dot_name, dots_name, devfs_put_inode,
}
use nupkux.Devfs.Devices.{IsDevice, devfs_register_device-devfs_lookup}
use nupkux.Devfs.Remount.{root_handle, mounted, mounted-IsOpen}

-- Nothing is mounted yet.
abbrev start : Devfs
start = record {
  cache = [];
  next_inode = 1;
  devfs_root = none;
  devfs_sb = false;
  nodes = [];
  next_id = 100;
}

-- "tty0"
abbrev tty0 : Device
tty0 = record { name = 116 ∷ 116 ∷ 121 ∷ 48 ∷ []; mode = 432; uid = 0; gid = 0; type = 3; f_op = 7 }

tty0-IsDevice : IsDevice tty0
tty0-IsDevice = record {
  string = (
    (omega arith, omega arith),
    ((omega arith, omega arith), ((omega arith, omega arith), ((omega arith, omega arith), tt))),
  );
  name = (refl, (refl, (refl, (refl, tt))));
  fits = omega arith;
}

abbrev root_inode : Inode
root_inode = fill_inode (root_handle start) (empty_inode 0)

second_mount : read_devfs_sb (mounted start) ≡ some (false, mounted start)
unfolding read_devfs_sb
second_mount = refl

no_entry : devfs_readdir (some 100) 2 (mounted start) ≡ some (neg 22, none)
unfolding devfs_readdir nupkux.Devfs.find
no_entry = refl

devfs_register_device-devfs_lookup_example :
    (s' : Devfs) × (devfs_register_device (some 100) tty0 (mounted start) ≡ some (some 101, s'))
    × (devfs_lookup 0 tty0.name [] s' ≡ some (some 1, iget [] 1))
    × (devfs_iget 1 s'.cache ≡ some (new_handle 100 tty0 (mounted start)))
devfs_register_device-devfs_lookup_example =
    devfs_register_device-devfs_lookup (mounted start) 100 (root_handle start) 0 root_inode tty0
      (mounted-IsOpen start) tty0-IsDevice []
