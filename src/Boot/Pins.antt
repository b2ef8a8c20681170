-- ===== src/Boot/Pins.antt =====
-- boot_linux.go: the pinned artifacts.
use fc_preflight.Prelude.{Option, none, some, []}
use fc_preflight.Text.{Bytes, codes}
use fc_preflight.Host.Machine.{Arch, amd64, arm64, other}
use fc_preflight.Artifact.{Artifact}

-- firecrackerVersion
abbrev pub firecracker_version : Bytes
firecracker_version = codes "v1.17.0"

-- firecrackerArtifacts
unfoldable pub firecracker_artifact : Arch → Option Artifact
firecracker_artifact amd64 = some (record {
  url =
      codes
        "https://github.com/firecracker-microvm/firecracker/releases/download/v1.17.0/firecracker-v1.17.0-x86_64.tgz";
  sha256 = codes "06094a1108ae9e82aa4c23a775aa92758f53f1175d422270d9d6162cb9ade558";
  tar_member = codes "release-v1.17.0-x86_64/firecracker-v1.17.0-x86_64";
})
firecracker_artifact arm64 = some (record {
  url =
      codes
        "https://github.com/firecracker-microvm/firecracker/releases/download/v1.17.0/firecracker-v1.17.0-aarch64.tgz";
  sha256 = codes "e351ebe4f7a16b5873bbd51005d2e6767103cff4d5ebc829df2d3f95a93e2256";
  tar_member = codes "release-v1.17.0-aarch64/firecracker-v1.17.0-aarch64";
})
firecracker_artifact (other name) = none

-- guestKernelArtifacts[arch], which is the zero artifact for a missing key
unfoldable pub guest_kernel_artifact : Arch → Artifact
guest_kernel_artifact amd64 = record {
  url = codes "https://s3.amazonaws.com/spec.ccfc.min/firecracker-ci/v1.13/x86_64/vmlinux-6.1.141";
  sha256 = codes "b36a4a1b10f33b9cfdcde3d1a787d9c090556a3edb211cd06d1f3f9a6c7e8724";
  tar_member = [];
}
guest_kernel_artifact arm64 = record {
  url = codes "https://s3.amazonaws.com/spec.ccfc.min/firecracker-ci/v1.13/aarch64/vmlinux-6.1.141";
  sha256 = codes "69aa3308219ec1a070bc9a8e7f80c3b34056fed8ae05efb44e55f73b31adde44";
  tar_member = [];
}
guest_kernel_artifact (other name) = record { url = []; sha256 = []; tar_member = [] }
