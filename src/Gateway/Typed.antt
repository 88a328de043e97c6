-- ===== src/Gateway/Typed.antt =====
-- The calls of the services behind the gateway, by the form of what they are given.
use capstone_home_care_be_mi.Platform.{Platform}
use capstone_home_care_be_mi.World.{World}
