-- ===== src/Container/Runtime.antt =====
-- internal/container/runtime.go: GPU access by vendor, on the host configuration.
use bonnie.Prelude.{[], ◌∷◌, ◌++◌}
use bonnie.Prelude.Int.{negsuc}
use bonnie.Gpu.Types.{Vendor, nvidia, amd, intel, unknown}
use bonnie.Container.Docker.{DeviceMapping, HostConfig}

abbrev pub dri : DeviceMapping
dri = record {
  path_on_host = "/dev/dri";
  path_in_container = "/dev/dri";
  cgroup_permissions = "rwm";
}

abbrev pub kfd : DeviceMapping
kfd = record {
  path_on_host = "/dev/kfd";
  path_in_container = "/dev/kfd";
  cgroup_permissions = "rwm";
}

-- A count of -1 means all GPUs.
inject_nvidia : HostConfig → HostConfig
inject_nvidia h = record h {
  device_requests =
      h.device_requests ++ record { count = negsuc 0; capabilities = ("gpu" ∷ []) ∷ [] } ∷ [];
}

inject_amd : HostConfig → HostConfig
inject_amd h = record h {
  devices = h.devices ++ kfd ∷ dri ∷ [];
  security_opt = h.security_opt ++ "seccomp=unconfined" ∷ [];
  group_add = h.group_add ++ "video" ∷ "render" ∷ [];
}

inject_intel : HostConfig → HostConfig
inject_intel h = record h {
  devices = h.devices ++ dri ∷ [];
  group_add = h.group_add ++ "video" ∷ "render" ∷ [];
}

unfoldable pub inject_gpu : HostConfig → Vendor → HostConfig
unfolding inject_nvidia inject_amd inject_intel
inject_gpu h nvidia = inject_nvidia h
inject_gpu h amd = inject_amd h
inject_gpu h intel = inject_intel h
inject_gpu h unknown = h
