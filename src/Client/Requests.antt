-- ===== src/Client/Requests.antt =====
-- The calls of library/evdi_lib.c that pass a request on to the kernel: connecting, asking for an update,
-- cursor events and answers of the display data channel.
pub mod Limits
use evdi.Prelude.{
  ℕ, ◌*◌, ◌%◌, ◌^◌, Bool, true, false, List, Option, none, some, ◌==◌, if◌then◌else◌,
}
use evdi.Prelude.Int.{ℤ, pos, eq_ℤ}
use evdi.Client.{
  Os, Context, Reply, ConnectCmd, connect, request_update, enable_cursor_events, ddcci_response,
}
use evdi.Client.Ioctl.{drm_ioctl}

-- The arguments that `evdi_connect2` passes, and those of `evdi_disconnect`.
abbrev pub connect_cmd : Context → Option (List ℕ) → ℕ → ℕ → ℕ → ConnectCmd
connect_cmd handle edid edid_length area_limit rate_limit = record {
  connected = 1;
  dev_index = handle.device_index;
  edid = edid;
  edid_length = edid_length;
  pixel_area_limit = area_limit;
  pixel_per_second_limit = rate_limit;
}

abbrev pub disconnect_cmd : ConnectCmd
disconnect_cmd = record {
  connected = 0;
  dev_index = 0;
  edid = none;
  edid_length = 0;
  pixel_area_limit = 0;
  pixel_per_second_limit = 0;
}

-- `sku_area_limit*60`, of a `uint32_t`
pub rate_limit_of : ℕ → ℕ
rate_limit_of sku_area_limit = (sku_area_limit * 60) % 2 ^ 32

module _ {S : Type 0} (os : Os S) where
  pub evdi_connect2 : S → Context → Option (List ℕ) → ℕ → ℕ → ℕ → S
  evdi_connect2 s handle edid edid_length area_limit rate_limit =
      (drm_ioctl os s handle.fd
        (connect (connect_cmd handle edid edid_length area_limit rate_limit))).0

  pub evdi_connect : S → Context → Option (List ℕ) → ℕ → ℕ → S
  unfolding evdi_connect2 rate_limit_of
  evdi_connect s handle edid edid_length sku_area_limit =
      evdi_connect2 s handle edid edid_length sku_area_limit (rate_limit_of sku_area_limit)

  pub evdi_disconnect : S → Context → S
  evdi_disconnect s handle = (drm_ioctl os s handle.fd (connect disconnect_cmd)).0

  unfoldable pub evdi_enable_cursor_events : S → Context → Bool → S
  evdi_enable_cursor_events s handle enable =
      (drm_ioctl os s handle.fd (enable_cursor_events enable)).0

  -- whether the client is to grab at once
  pub evdi_request_update : S → Context → ℕ → S × Context × Bool
  evdi_request_update s handle buffer_id =
      let handle' = record handle { buffer_to_update = buffer_id } in
      let (s', reply) = drm_ioctl os s handle'.fd request_update in
      (s', handle', eq_ℤ reply.code (pos 1))

  pub evdi_ddcci_response : S → Context → List ℕ → ℕ → Bool → S
  evdi_ddcci_response s handle buffer buffer_length result =
      (drm_ioctl os s handle.fd (ddcci_response buffer buffer_length result)).0
