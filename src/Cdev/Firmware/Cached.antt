-- ===== src/Cdev/Firmware/Cached.antt =====
-- The topology that a device keeps.
use aws_neuron_driver.Common.{
  ℕ, none, List, [], ◌∷◌, ◌≡◌, ◌≢◌, refl, sym, ok, ◌>>=◌, bind_out-ok, ok-injective,
}
use aws_neuron_driver.FwIo.Request.{Firmware}
use aws_neuron_driver.Cdev.Firmware.{DeviceState, DeviceInfo, info_of, discover, ncdev_device_info}

module _ (fw : Firmware) where
  discover-known :
      (other : ℕ) (ids : List ℕ) (d : DeviceState) → ids ≢ [] → discover fw other ids d ≡ ok tt d
  unfolding discover
  discover-known other [] d known = absurd (known refl)
  discover-known other (id ∷ ids) d known = refl

  -- A device whose information was asked with success and has neighbours gives the same
  -- information again and stays as it is: the firmware is not asked a second time.
  pub ncdev_device_info-cached :
      (reg_val other : ℕ) (d d' : DeviceState) (info : DeviceInfo)
      → ncdev_device_info fw reg_val none d ≡ ok info d'
      → info.connected_devices ≢ []
      → ncdev_device_info fw other none d' ≡ ok info d'
  unfolding ncdev_device_info discover
  ncdev_device_info-cached reg_val other d d' info e some_there =
      let (u, d1, found, rest) =
        bind_out-ok (discover fw reg_val d.connected_devices d) (λ u d. ok (info_of d) d) e in
      let (same_info, same) = ok-injective (info_of d1) info d1 d' rest in
      let known : d'.connected_devices ≢ [] = rw same at (rw (sym same_info) at some_there) in
      let again : ok (info_of d') d' ≡ ok info d' = rw same at rest in
      rw (discover-known other d'.connected_devices d' known, ◌>>=◌) again
