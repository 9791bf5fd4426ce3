-- ===== src/Painter/Connect/Lifecycle.antt =====
-- Who may connect and disconnect, and what is left.
use evdi.Prelude.{
  some-inj, ℕ, ◌≤◌, ◌≡◌, ◌≢◌, refl, sym, ap, subst, ◌+◌, [], Bool, true, false, not, ◌&&◌, ◌⊎◌, inl,
  inr, List, [], Option, none, some, arith, ltb, ◌==◌, if◌then◌else◌, if-cases, length, take,
  length-take, take_all, is_some, same_id,
}
use evdi.Errno.{Errno, err, Status, done, einval, enomem, efault}
use evdi.Cursor.{cursor_enable, cursor_set_gem}
use evdi.Painter.State.{Painter, Device, Env}
use evdi.Painter.Vblank.{send_vblank}
use evdi.Painter.Connect.{
  ConnectArgs, events_cleanup, read_user, connect_with, painter_connect, painter_disconnect,
  disconnect_owner, painter_close, max_edid_size, get_edid_copy, edid_copy_of, is_connected,
}

-- The edid has its stated length, which is that of a base block at least and of 255 extensions at most.
abbrev pub EdidOk : Option (List ℕ) → ℕ → Type 0
EdidOk none n = n ≡ 0
EdidOk (some edid) n = (length edid ≡ n) × (128 ≤ n) × (n ≤ max_edid_size)

-- A painter is connected exactly if it has an owner, and a connected one has an edid.
pub record PainterInv (p : Painter) : Type 0 where
  pub owned : p.is_connected ≡ is_some p.drm_filp
  pub edid_ok : EdidOk p.edid p.edid_length
  pub has_edid : p.is_connected ≡ true → is_some p.edid ≡ true

abbrev pub DeviceInv : Device → Type 0
DeviceInv d = (p : Painter) → d.painter ≡ some p → PainterInv p

-- a read that succeeds gives as many bytes as were asked for
pub read_user_lem :
    (user : Option (List ℕ)) (n : ℕ) (bytes : List ℕ)
    → read_user user n ≡ some bytes
    → length bytes ≡ n
unfolding read_user
read_user_lem none n bytes h = cc
read_user_lem (some all) n bytes h = ground (arith, length-take n all)

not_lt : (a b : ℕ) → ltb a b ≡ false → b ≤ a
not_lt a b h = ground arith

-- what a connect comes to: an error and nothing changed, or all of the edid read and in bounds
pub connect-cases {ℓ} :
    (P : Device × Status → Type ℓ) (env : Env) (d : Device) (p : Painter) (file : ℕ)
    (cmd : ConnectArgs) (alloc : Bool)
    → ((e : Errno) → P (d, err e))
    → ((edid : List ℕ)
        → 128 ≤ cmd.edid_length
        → cmd.edid_length ≤ max_edid_size
        → read_user cmd.edid cmd.edid_length ≡ some edid
        → P (connect_with env d p file cmd edid, done))
    → P (painter_connect env d p file cmd alloc)
unfolding painter_connect
connect-cases P env d p file cmd alloc fails connects =
    if-cases P _ _ _ (λ e. fails einval)
      λ low.
        if-cases P _ _ _ (λ e. fails einval)
          λ high.
            if-cases P _ _ _ (λ e. fails enomem)
              λ a.
                read (read_user cmd.edid cmd.edid_length)
                  (λ edid r. connects edid (not_lt _ _ low) (not_lt _ _ high) r)
  where
    read :
        (r : Option (List ℕ))
        → ((edid : List ℕ) → r ≡ some edid → P (connect_with env d p file cmd edid, done))
        → P (elim r [
          | none ↦ (d, err efault)
          | some edid ↦ (connect_with env d p file cmd edid, done)
        ])
    read none k = fails efault
    read (some edid) k = k edid refl

-- a failure that changed nothing, or a success that made the file the owner
abbrev pub ConnectOutcome : Device → ℕ → ConnectArgs → Device × Status → Type 0
ConnectOutcome d file cmd (after, status) =
    (after ≡ d × (status ≢ done))
    ⊎ (status ≡ done
        × ((q : Painter) × (after.painter ≡ some q)
            × (q.drm_filp ≡ some file)
            × (q.is_connected ≡ true)
            × (q.edid ≡ read_user cmd.edid cmd.edid_length)
            × (q.needs_full_modeset ≡ true)))

-- A connect request that fails changes nothing, and one that succeeds makes its file the owner
-- of a connected painter that has the edid that was read and needs a full modeset.
pub connect_lem :
    (env : Env) (d : Device) (p : Painter) (file : ℕ) (cmd : ConnectArgs) (alloc : Bool)
    → ConnectOutcome d file cmd (painter_connect env d p file cmd alloc)
unfolding connect_with
connect_lem env d p file cmd alloc =
    connect-cases (ConnectOutcome d file cmd) env d p file cmd alloc (λ e. inl (refl, λ h. cc))
      (λ edid low high r. inr (refl, (_, refl, refl, refl, sym r, refl)))

pub connect-DeviceInv :
    (env : Env) (d : Device) (p : Painter) (file : ℕ) (cmd : ConnectArgs) (alloc : Bool)
    → DeviceInv d
    → DeviceInv (painter_connect env d p file cmd alloc).0
unfolding connect_with
connect-DeviceInv env d p file cmd alloc inv =
    connect-cases (λ r. DeviceInv r.0) env d p file cmd alloc (λ e. inv)
      λ edid low high r q h. subst PainterInv (some-inj h) (record {
        owned = refl;
        edid_ok = (read_user_lem cmd.edid cmd.edid_length edid r, low, high);
        has_edid = λ _. refl;
      })

pub disconnect-DeviceInv :
    (d : Device) (p : Painter) → PainterInv p → DeviceInv (disconnect_owner d p)
unfolding disconnect_owner send_vblank events_cleanup
disconnect-DeviceInv d p inv q h =
    subst PainterInv (some-inj h)
      (record { owned = refl; edid_ok = inv.edid_ok; has_edid = λ e. cc })

-- When the owner disconnects or closes its file, the two come to the same: nobody owns the
-- painter, it is not connected, it has no pending event, no scheduled work, no vertical blank,
-- no update request, no scanout framebuffer and no answer of the display data channel, whose
-- completion is signalled once more; the cursor is off, cursor events are off and the i2c
-- adapter is gone.
pub disconnect_owner_lem :
    (d : Device) (p : Painter) (file : ℕ)
    → d.painter ≡ some p
    → same_id (some file) p.drm_filp ≡ true
    → let after = disconnect_owner d p in
      (painter_disconnect d p file ≡ (after, done))
      × (painter_close d file ≡ after)
      × (after.cursor.enabled ≡ false)
      × (after.i2c_adapter ≡ false)
      × (after.cursor_events_enabled ≡ false)
      × ((q : Painter) × (after.painter ≡ some q)
          × (q.is_connected ≡ false)
          × (q.drm_filp ≡ none)
          × (q.pending_events ≡ [])
          × (q.work_pending ≡ false)
          × (q.vblank ≡ none)
          × (q.was_update_requested ≡ false)
          × (q.scanout_fb ≡ none)
          × (q.ddcci_buffer ≡ none)
          × (q.ddcci_done ≡ p.ddcci_done + 1))
unfolding painter_disconnect painter_close disconnect_owner send_vblank events_cleanup cursor_enable
    cursor_set_gem
disconnect_owner_lem d p file e h = (
  rw h refl,
  rw (e, h) refl,
  refl,
  refl,
  refl,
  (_, refl, refl, refl, refl, refl, refl, refl, refl, refl, refl),
)

-- For a painter that satisfies the session's invariant: the copy is the whole edid if the
-- painter is connected and there is memory for it, and nothing otherwise.
pub get_edid_copy_lem :
    (p : Painter) (alloc : Bool)
    → PainterInv p
    → get_edid_copy (some p) alloc ≡ (if p.is_connected && alloc then p.edid else none)
unfolding get_edid_copy edid_copy_of
get_edid_copy_lem p alloc inv = go p.is_connected p.edid p.edid_length inv.edid_ok inv.has_edid
  where
    go :
        (c : Bool) (edid : Option (List ℕ)) (n : ℕ)
        → EdidOk edid n
        → (c ≡ true → is_some edid ≡ true)
        → (if c && is_some edid && not (n == 0) && alloc
            then (elim edid [ none ↦ none | some e ↦ some (take n e) ])
            else none)
          ≡ (if c && alloc then edid else none)
    go false edid n fits has = refl
    go true none n fits has = ground (arith, has refl)
    go true (some e) n (l, low, high) has = rw (take_all n e l) (ground arith)

-- Without a connection there is no copy.
pub get_edid_copy-none :
    (o : Option Painter) (alloc : Bool) → is_connected o ≡ false → get_edid_copy o alloc ≡ none
unfolding get_edid_copy edid_copy_of
get_edid_copy-none none alloc h = refl
get_edid_copy-none (some p) alloc h =
    ap
      (λ c.
        if c && is_some p.edid && not (p.edid_length == 0) && alloc
        then (elim p.edid [ none ↦ none | some edid ↦ some (take p.edid_length edid) ])
        else none)
      h
