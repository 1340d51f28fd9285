-- ===== src/Proto/Payloads.antt =====
-- The payloads of the wire protocol (src/proto/payloads.rs), one module for each.
pub mod Wire
pub mod Codec
pub mod Kinds
pub mod PowerStatusV2
pub mod SysLogV1
pub mod NetPublishV1
pub mod HostServiceRestartV1
pub mod UiDisplayMsgV1
pub mod SysPongV1
pub mod SysHelloV1
pub mod PowerStatusV1
pub mod PowerCycleV1
pub mod PowerEventV1
pub mod NetStatusV1
pub mod NetTimeSyncV1
pub mod HostStatusV1
pub mod HostShutdownV1
pub mod HostEventV1
pub mod PowerFault
pub mod Power2Flag
pub mod PowerEvent
pub mod HostEvent
pub mod HostShutdownReason
pub mod UiButtonEventV1
pub mod UiSetScreenV1
pub mod UiBeepV1
