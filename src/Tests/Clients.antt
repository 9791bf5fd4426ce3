-- ===== src/Tests/Clients.antt =====
-- The user library: repeated calls, grabs, events and limits.
use evdi.Prelude.{
  ℕ, zero, suc, ◌+◌, ◌≤◌, ◌≡◌, refl, arith, true, false, List, [], ◌∷◌, ◌++◌, none, some, get_or,
  length, inl,
}
use evdi.Prelude.Int.{pos, negsuc}
use evdi.Errno.{done}
use evdi.Event.{Event, CursorSet, dpms, update_ready, cursor_set}
use evdi.Painter.State.{Painter, Device}
use evdi.Painter.Grab.{grabpix_ioctl}
use evdi.Connector.{DisplayMode, mode_valid, mode_ok}
use evdi.Client.{Os, Context, Buffer, Request, Reply, grabpix, drop_master, nothing, eintr}
use evdi.Client.Ioctl.{written_back, retry, Repeats, retry_lem}
use evdi.Client.Buffers.{find_buffer}
use evdi.Client.Grab.{evdi_grab_pixels, grab_cmd}
use evdi.Client.Grab.Module.{Shared, Grabs, args_of, grab_reply}
use evdi.Client.Grab.Whole.{Taken, grab_pixels-Taken}
use evdi.Client.Events.{EventContext, evdi_handle_events, dispatch}
use evdi.Client.Events.Layout.{event_bytes}
use evdi.Client.Events.Loop.{Lies, dispatch_all, handle_events_lem}
use evdi.Client.Events.Shown.{Shows, cursor_set-Shows}
use evdi.Client.Requests.{rate_limit_of}
use evdi.Client.Requests.Limits.{mode_valid-rate_limit}
use evdi.Tests.Data.{live, live_device, live_world, device_of, fresh_device, grab_env, blank}

-- a kernel that interrupts as many calls as its state says
abbrev pub slow_ioctl : ℕ → ℕ → Request → ℕ × Reply
slow_ioctl zero fd request = (0, record { code = pos 0; errno = 0; payload = nothing })
slow_ioctl (suc n) fd request = (n, record { code = negsuc 0; errno = eintr; payload = nothing })

slow-Repeats : Repeats slow_ioctl 3 2 drop_master 2 0 drop_master
unfolding written_back
slow-Repeats =
    Repeats.call 2 1 0 drop_master drop_master 1 _ refl (refl, inl refl)
      (Repeats.call 1 0 0 drop_master drop_master 0 _ refl (refl, inl refl)
        (Repeats.here 0 drop_master))

retry_lem_example : retry slow_ioctl 3 5 drop_master 2 ≡ slow_ioctl 0 3 drop_master
retry_lem_example =
    retry_lem slow_ioctl 3 2 0 drop_master drop_master 2 5 slow-Repeats (λ i. cc) (omega arith)

abbrev shared_ioctl : Shared → ℕ → Request → Shared × Reply
shared_ioctl s fd (grabpix cmd) = grab_reply (grabpix_ioctl grab_env s.0 (args_of cmd) s.1)
shared_ioctl s fd _ = (s, record { code = negsuc 0; errno = 22; payload = nothing })

-- the module as the kernel
abbrev module_os : Os Shared
module_os = record {
  ioctl = shared_ioctl;
  patience = 8;
  open_path = λ s _. (s, some 3);
  close_fd = λ s _. s;
  mmap = λ _ _ _ _. none;
  usleep = λ s _. s;
}

module_os-Grabs : Grabs grab_env module_os
module_os-Grabs s fd cmd = refl

abbrev pub buffer : Buffer
buffer = record {
  id = 1;
  buffer = 4096;
  width = pos 8;
  height = pos 8;
  stride = pos 32;
  rects = 0;
  rect_count = pos 0;
}

abbrev pub handle : Context
handle = record { fd = 3; buffer_to_update = 1; frame_buffers = buffer ∷ []; device_index = 0 }

buffer-found : find_buffer handle.frame_buffers handle.buffer_to_update ≡ some buffer
unfolding find_buffer
buffer-found = refl

grabbed-done :
    (grabpix_ioctl grab_env live_device (args_of (grab_cmd buffer)) blank).1.status ≡ done
unfolding grabpix_ioctl evdi.Painter.Grab.grab_framebuffer evdi.Gem.gem_vmap
    evdi.Painter.Connect.get_fb evdi.Painter.Grab.grab_mapped
    evdi.Painter.Pixels.copy_primary_pixels evdi.Prelude.Int.to_u32 evdi.Painter.Pixels.copy_rects
    evdi.Painter.Grab.grab_rects evdi.Rect.merge_dirty_rects evdi.Rect.merge_inner
    evdi.Rect.is_mergeable evdi.Rect.rect_area evdi.Prelude.Int.wrap32 evdi.Prelude.Int.◌*ℤ◌
    evdi.Prelude.Int.◌-ℤ◌ evdi.Rect.expand_rect evdi.Prelude.Int.◌+ℤ◌ evdi.Rect.merge_pair
    evdi.Painter.Pixels.copy_rows
grabbed-done = refl

grab_pixels-Taken_example : Taken live (evdi_grab_pixels module_os (live_device, blank) handle)
grab_pixels-Taken_example =
    grab_pixels-Taken grab_env module_os live_device blank handle buffer live module_os-Grabs
      buffer-found refl (refl, omega arith) grabbed-done

abbrev dark : Painter
dark = record live { scanout_fb = none }

abbrev dark_device : Device
dark_device = device_of dark live_world

abbrev dark_and_clean : Painter
dark_and_clean = record dark { num_dirts = 0 }

-- a kernel that answers at once
abbrev pub quick_os : Os ℕ
quick_os = record {
  ioctl = slow_ioctl;
  patience = 2;
  open_path = λ s _. (s, some 3);
  close_fd = λ s _. s;
  mmap = λ _ _ n _. some (n ∷ []);
  usleep = λ s _. s;
}

-- a client that notes the power state, and that an update is ready
abbrev hearer : EventContext ℕ
hearer = record {
  dpms_handler = some (λ mode state. (mode, state.1));
  mode_changed_handler = none;
  update_ready_handler = some (λ id state. (state.0 + 10, state.1));
  crtc_state_handler = none;
  cursor_set_handler = some (λ image state. (image.width, state.1));
  cursor_move_handler = none;
  ddcci_data_handler = none;
}

abbrev two_events : List Event
two_events = dpms 3 ∷ update_ready ∷ []

abbrev two_read : ℕ → ℕ
two_read i = get_or (event_bytes (dpms 3) ++ event_bytes update_ready) i 0

two_events-Lies : Lies two_read 0 two_events
two_events-Lies = (
  (omega arith, tt),
  (
    refl,
    (refl, (refl, (refl, (refl, (refl, (refl, (refl, (refl, (refl, (refl, (refl, tt))))))))))),
  ),
  (tt, (refl, (refl, (refl, (refl, (refl, (refl, (refl, (refl, tt)))))))), tt),
)

handle_events_lem_example :
    evdi_handle_events quick_os 2 (some hearer) two_read (pos 20) (0, handle)
    ≡ some (dispatch_all quick_os hearer two_events (0, handle))
handle_events_lem_example =
    handle_events_lem quick_os hearer 2 two_events two_read (0, handle) two_events-Lies
      (omega arith) (omega arith)

abbrev pointer : CursorSet
pointer = record {
  hot_x = 1;
  hot_y = 1;
  width = 64;
  height = 64;
  enabled = true;
  buffer_handle = 7;
  buffer_length = 16384;
  pixel_format = 0;
  stride = 256;
}

cursor_set-Shows_example :
    Shows quick_os 0 handle pointer
      (λ image state. (image.width, state.1))
      (dispatch quick_os hearer (cursor_set pointer) (0, handle))
cursor_set-Shows_example = cursor_set-Shows quick_os 0 handle pointer hearer _ refl

abbrev full_hd : DisplayMode
full_hd = record { hdisplay = 1920; vdisplay = 1080; htotal = 2200; vtotal = 1125; clock = 148500 }

mode_valid-rate_limit_example :
    mode_valid
      (λ _. 60)
      (record fresh_device {
        pixel_area_limit = 2073600;
        pixel_per_second_limit = rate_limit_of 2073600;
      })
      (full_hd ∷ [])
      full_hd
    ≡ mode_ok
mode_valid-rate_limit_example =
    mode_valid-rate_limit (λ _. 60) _ (full_hd ∷ []) full_hd 2073600 refl refl (omega arith)
      (omega arith) (omega arith)
