-- ===== src/Servers/InstallScript.antt =====
-- apps/api/src/servers/install-script.ts: the bootstrap script of a server, line by line.
use fredoomeaxima.Common.{ℕ, List, [], ◌∷◌, ◌++◌}
use fredoomeaxima.Text.{Text, codes, to_text, join}

pub record InstallScriptParams : Type 0 where
  pub panel_url : Text
  pub server_id : Text
  pub install_token : Text
  pub agent_token : Text
  pub wg_endpoint_port : ℕ
  pub wg_subnet_cidr : Text
  pub wg_server_address : Text

settings : InstallScriptParams → List Text
settings p =
    (codes "#!/usr/bin/env bash")
    ∷ (codes "# AximaVPN node bootstrap — generated for server " ++ p.server_id)
    ∷ (codes "# Supports Ubuntu 22.04 / 24.04. Run as root (sudo).")
    ∷ (codes "set -euo pipefail")
    ∷ []
    ∷ (codes "PANEL_URL=\"" ++ (p.panel_url ++ codes "\""))
    ∷ (codes "SERVER_ID=\"" ++ (p.server_id ++ codes "\""))
    ∷ (codes "INSTALL_TOKEN=\"" ++ (p.install_token ++ codes "\""))
    ∷ (codes "AGENT_TOKEN=\"" ++ (p.agent_token ++ codes "\""))
    ∷ (codes "WG_PORT=\"" ++ (to_text p.wg_endpoint_port ++ codes "\""))
    ∷ (codes "WG_SUBNET=\"" ++ (p.wg_subnet_cidr ++ codes "\""))
    ∷ (codes "WG_ADDRESS=\"" ++ (p.wg_server_address ++ codes "\""))
    ∷ (codes "AGENT_PORT=\"8443\"")
    ∷ []
    ∷ []

update_system : List Text
update_system =
    (codes "echo \"[1/8] Updating system...\"")
    ∷ (codes "export DEBIAN_FRONTEND=noninteractive")
    ∷ (codes "apt-get update -y")
    ∷ (codes "apt-get upgrade -y")
    ∷ (codes "apt-get install -y wireguard wireguard-tools ufw curl jq nodejs npm")
    ∷ []
    ∷ []

forward_ips : List Text
forward_ips =
    (codes "echo \"[2/8] Enabling IP forwarding...\"")
    ∷ (codes "echo \"net.ipv4.ip_forward=1\" > /etc/sysctl.d/99-aximavpn.conf")
    ∷ (codes "echo \"net.ipv6.conf.all.forwarding=1\" >> /etc/sysctl.d/99-aximavpn.conf")
    ∷ (codes "sysctl --system")
    ∷ []
    ∷ []

set_firewall : List Text
set_firewall =
    (codes "echo \"[3/8] Configuring firewall...\"")
    ∷ (codes "ufw allow 22/tcp || true")
    ∷ (codes "ufw allow ${WG_PORT}/udp")
    ∷ (codes "ufw allow ${AGENT_PORT}/tcp")
    ∷ (codes "ufw --force enable || true")
    ∷ []
    ∷ []

make_keys : List Text
make_keys =
    (codes "echo \"[4/8] Generating WireGuard server keys...\"")
    ∷ (codes "umask 077")
    ∷ (codes "mkdir -p /etc/wireguard")
    ∷ (codes "if [ ! -f /etc/wireguard/server_private.key ]; then")
    ∷ (codes
        "  wg genkey | tee /etc/wireguard/server_private.key | wg pubkey > /etc/wireguard/server_public.key")
    ∷ (codes "fi")
    ∷ (codes "SERVER_PRIVATE_KEY=\"$(cat /etc/wireguard/server_private.key)\"")
    ∷ (codes "SERVER_PUBLIC_KEY=\"$(cat /etc/wireguard/server_public.key)\"")
    ∷ (codes "WAN_IFACE=\"$(ip route show default | awk '/default/ {print $5; exit}')\"")
    ∷ []
    ∷ []

write_config : List Text
write_config =
    (codes "echo \"[5/8] Writing wg0 config...\"")
    ∷ (codes "cat > /etc/wireguard/wg0.conf <<EOF")
    ∷ (codes "[Interface]")
    ∷ (codes "Address = ${WG_ADDRESS}")
    ∷ (codes "ListenPort = ${WG_PORT}")
    ∷ (codes "PrivateKey = ${SERVER_PRIVATE_KEY}")
    ∷ (codes
        "PostUp = iptables -A FORWARD -i %i -j ACCEPT; iptables -A FORWARD -o %i -j ACCEPT; iptables -t nat -A POSTROUTING -o ${WAN_IFACE} -j MASQUERADE")
    ∷ (codes
        "PostDown = iptables -D FORWARD -i %i -j ACCEPT; iptables -D FORWARD -o %i -j ACCEPT; iptables -t nat -D POSTROUTING -o ${WAN_IFACE} -j MASQUERADE")
    ∷ (codes "EOF")
    ∷ []
    ∷ []

bring_up : List Text
bring_up =
    (codes "echo \"[6/8] Bringing up WireGuard...\"")
    ∷ (codes "systemctl enable wg-quick@wg0")
    ∷ (codes "systemctl restart wg-quick@wg0")
    ∷ []
    ∷ []

install_agent : List Text
install_agent =
    (codes "echo \"[7/8] Installing agent...\"")
    ∷ (codes "mkdir -p /opt/aximavpn-agent")
    ∷ (codes
        "# Prefer the bundle uploaded by the panel's SSH provisioner; fall back to fetching it.")
    ∷ (codes "if [ -f /tmp/aximavpn-agent.js ]; then")
    ∷ (codes "  cp /tmp/aximavpn-agent.js /opt/aximavpn-agent/agent.js")
    ∷ (codes "else")
    ∷ (codes
        "  curl -fsSL \"${PANEL_URL}/servers/agent-bundle\" -o /opt/aximavpn-agent/agent.js || true")
    ∷ (codes "fi")
    ∷ (codes "cat > /etc/aximavpn-agent.env <<EOF")
    ∷ (codes "PANEL_URL=${PANEL_URL}")
    ∷ (codes "SERVER_ID=${SERVER_ID}")
    ∷ (codes "AGENT_TOKEN=${AGENT_TOKEN}")
    ∷ (codes "AGENT_PORT=${AGENT_PORT}")
    ∷ (codes "WG_INTERFACE=wg0")
    ∷ (codes "EOF")
    ∷ (codes "cat > /etc/systemd/system/aximavpn-agent.service <<EOF")
    ∷ (codes "[Unit]")
    ∷ (codes "Description=AximaVPN Agent")
    ∷ (codes "After=network-online.target wg-quick@wg0.service")
    ∷ []
    ∷ (codes "[Service]")
    ∷ (codes "EnvironmentFile=/etc/aximavpn-agent.env")
    ∷ (codes "ExecStart=/usr/bin/node /opt/aximavpn-agent/agent.js")
    ∷ (codes "Restart=always")
    ∷ (codes "RestartSec=5")
    ∷ []
    ∷ (codes "[Install]")
    ∷ (codes "WantedBy=multi-user.target")
    ∷ (codes "EOF")
    ∷ (codes "systemctl daemon-reload")
    ∷ (codes "systemctl enable aximavpn-agent || true")
    ∷ (codes "systemctl restart aximavpn-agent || true")
    ∷ []
    ∷ []

register_node : List Text
register_node =
    (codes "echo \"[8/8] Registering with panel...\"")
    ∷ (codes "curl -fsSL -X POST \"${PANEL_URL}/servers/${SERVER_ID}/register\" \\")
    ∷ (codes "  -H \"Content-Type: application/json\" \\")
    ∷ (codes
        "  -d \"{\\\"installToken\\\":\\\"${INSTALL_TOKEN}\\\",\\\"serverPublicKey\\\":\\\"${SERVER_PUBLIC_KEY}\\\"}\"")
    ∷ []
    ∷ (codes "echo \"\"")
    ∷ (codes "echo \"Done. Server public key: ${SERVER_PUBLIC_KEY}\"")
    ∷ []
    ∷ []

pub build_install_script : InstallScriptParams → Text
unfolding settings update_system forward_ips set_firewall make_keys write_config bring_up
    install_agent register_node
build_install_script p = join b'\n' (
    settings p
    ++ (update_system
        ++ (forward_ips
            ++ (set_firewall
                ++ (make_keys
                    ++ (write_config ++ (bring_up ++ (install_agent ++ register_node))))))))
