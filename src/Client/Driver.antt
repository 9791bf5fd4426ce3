-- ===== src/Client/Driver.antt =====
-- Finding and opening the driver's device files (library/evdi_lib.c): who is master, which driver and
-- version a file belongs to, and the waiting for a device.
pub mod Slave
use evdi.Prelude.{
  ℕ, zero, suc, ◌+◌, Bool, true, false, not, ◌&&◌, List, [], ◌∷◌, ◌++◌, Option, none, some, ◌==◌,
  if◌then◌else◌,
}
use evdi.Prelude.Int.{ℤ, pos, sub_ℕ, eq_ℤ, ltb_ℤ, leb_ℤ}
use evdi.Client.{
  Os, Request, Reply, Payload, Version, auth_magic, drop_master, version, version_of, eacces,
}
use evdi.Client.Text.{Bytes, bytes_eq, print_int}
use evdi.Client.Ioctl.{drm_ioctl}
use evdi.Client.Procfs.{Process, device_has_master, xorg_running}

abbrev pub module_version_major : ℤ
module_version_major = pos 1

abbrev pub module_version_minor : ℤ
module_version_minor = pos 9

abbrev pub evdi_name : Bytes
evdi_name = b'e' ∷ b'v' ∷ b'd' ∷ b'i' ∷ []

-- "/dev/dri/card%d"
abbrev pub card_path : ℕ → Bytes
card_path device =
    b'/'
    ∷ b'd'
    ∷ b'e'
    ∷ b'v'
    ∷ b'/'
    ∷ b'd'
    ∷ b'r'
    ∷ b'i'
    ∷ b'/'
    ∷ b'c'
    ∷ b'a'
    ∷ b'r'
    ∷ b'd'
    ∷ print_int device

-- How often the library waits, 5000000 / 100000 times, and for how long.
abbrev pub wait_count : ℕ
wait_count = 50

abbrev pub sleep_interval_us : ℕ
sleep_interval_us = 100000

compatible : Version → Bool
compatible ver =
    eq_ℤ ver.version_major module_version_major && leb_ℤ module_version_minor ver.version_minor

-- an ioctl that fails leaves the zeros that the argument had
version_in : Payload → Version
version_in (version_of ver) = ver
version_in _ = record {
  version_major = pos 0;
  version_minor = pos 0;
  version_patchlevel = pos 0;
  name_len = 0;
  name = [];
}

module _ {S : Type 0} (os : Os S) where
  -- 0, or -errno
  pub drm_auth_magic : S → ℕ → ℕ → S × ℤ
  drm_auth_magic s fd magic =
      let (s', reply) = drm_ioctl os s fd (auth_magic magic) in
      (s', if eq_ℤ reply.code (pos 0) then pos 0 else sub_ℕ 0 reply.errno)

  pub drm_is_master : S → ℕ → S × Bool
  unfolding drm_auth_magic
  drm_is_master s fd =
      let (s', ret) = drm_auth_magic s fd 0 in (s', not (eq_ℤ ret (sub_ℕ 0 eacces)))

  pub is_evdi_compatible : S → ℕ → S × Bool
  unfolding compatible version_in
  is_evdi_compatible s fd =
      let (s', reply) = drm_ioctl os s fd (version 0) in
      (s', eq_ℤ reply.code (pos 0) && compatible (version_in reply.payload))

  pub is_evdi : S → ℕ → S × Bool
  unfolding version_in
  is_evdi s fd =
      let (s', reply) = drm_ioctl os s fd (version 64) in
      (s', eq_ℤ reply.code (pos 0) && bytes_eq (version_in reply.payload).name evdi_name)

  -- with the file open: a master drops its role, and a file that stays master is closed
  pub enslave : S → ℕ → S × Option ℕ
  unfolding drm_is_master
  enslave s fd =
      let (s1, master) = drm_is_master s fd in
      let (s2, reply) = drm_ioctl os s1 fd drop_master in
      let (s3, still) = drm_is_master (if master then s2 else s1) fd in
      if master && ltb_ℤ reply.code (pos 0)
      then (os.close_fd s2 fd, none)
      else if still
      then (os.close_fd s3 fd, none)
      else (s3, some fd)

  -- `none` is a negative result
  pub open_as_slave : S → Bytes → S × Option ℕ
  unfolding enslave
  open_as_slave s device_path =
      let (s', fd) = os.open_path s device_path in
      elim fd [ none ↦ (s', none) | some n ↦ enslave s' n ]

  -- `while ((fd = open_as_slave(path)) < 0 && cnt--) usleep(...)`, with `cnt` rounds left
  pub wait_for_device : ℕ → S → Bytes → S × Option ℕ
  unfolding open_as_slave
  wait_for_device zero s device_path = open_as_slave s device_path
  wait_for_device (suc cnt) s device_path =
      let (s', fd) = open_as_slave s device_path in
      let again = wait_for_device cnt (os.usleep s' sleep_interval_us) device_path in
      elim fd [ none ↦ again | some n ↦ (s', some n) ]

  -- what /proc holds changes while the library waits
  module _ (proc : S → Option (List Process)) (myself : ℤ) where
    pub wait_for_master : ℕ → S → Bytes → S
    wait_for_master zero s device_path = s
    wait_for_master (suc cnt) s device_path =
        let again = wait_for_master cnt (os.usleep s sleep_interval_us) device_path in
        if device_has_master myself device_path (proc s) then s else again

    unfoldable pub open_device : S → ℕ → S × Option ℕ
    unfolding wait_for_device wait_for_master
    open_device s device =
        let dev = card_path device in
        let s1 = if xorg_running (proc s) then wait_for_master wait_count s dev else s in
        let (s2, fd) = wait_for_device wait_count s1 dev in
        elim fd [ none ↦ (s2, none) | some n ↦ ((drm_ioctl os s2 n drop_master).0, some n) ]
